-- ===== src/Mining/Tests.antt =====
-- Runs of src/htnstratum/mining_state.go on a small ring of jobs.
use htn_stratum_bridge.Prelude.{
  ℕ, ◌≡◌, refl, Bool, true, false, Option, none, some, List, [], ◌∷◌, Bytes, codes, pos, arith,
}
use htn_stratum_bridge.Rpc.{Block}
use htn_stratum_bridge.Mining.{MiningState, mining_state_generator, add_job, get_job, remove_job}
use htn_stratum_bridge.Mining.Ring.{add_jobs, retention, takeover}
use htn_stratum_bridge.Mining.Tracked.{adds, removes, start, next, IsTracked, Reach-IsTracked}

abbrev block_named : Bytes → Block
block_named name = record {
  header = none;
  verbose_data = some (record {
    hash = name;
    blue_score = 5;
    is_chain_block = true;
    selected_parent_hash = [];
    merge_set_blues_hashes = [];
    merge_set_reds_hashes = [];
  });
  transactions = [];
}

abbrev fresh : MiningState ℕ
fresh = mining_state_generator 0

abbrev first_job : Option Block
first_job = some (block_named (codes "aa"))

abbrev second_job : Option Block
second_job = some (block_named (codes "bb"))

abbrev filled : List (Option Block × Bool)
filled =
    let j : Option Block × Bool = (second_job, false) in
    let four = λ (rest : List (Option Block × Bool)). j ∷ j ∷ j ∷ j ∷ rest in
    four (four (four (four (four (four (four (j ∷ j ∷ j ∷ [])))))))

fresh_counter : fresh.job_counter ≡ pos 0
unfolding mining_state_generator
fresh_counter = refl

retention_example :
    get_job
      (add_job first_job true fresh).1
      (add_jobs ((second_job, false) ∷ []) (add_job first_job true fresh).0)
    ≡ some first_job
retention_example =
    retention first_job true ((second_job, false) ∷ []) fresh 0 fresh_counter (ground arith)
      (ground arith)

takeover_example :
    get_job
      (add_job first_job true fresh).1
      (add_job second_job false (add_jobs filled (add_job first_job true fresh).0)).0
    ≡ some second_job
takeover_example =
    takeover first_job second_job true false filled fresh 0 fresh_counter refl (ground arith)

abbrev two_jobs : MiningState ℕ
two_jobs = (add_job second_job false (add_job first_job true fresh).0).0

Reach-IsTracked_example : IsTracked (remove_job (pos 2) two_jobs)
Reach-IsTracked_example = Reach-IsTracked (
    next
      (next (next (start 0) (adds first_job true fresh))
        (adds second_job false (add_job first_job true fresh).0))
      (removes (pos 2) two_jobs))
