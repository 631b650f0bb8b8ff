-- ===== src/Share/Tests.antt =====
-- Runs of `HandleSubmit`, over converted blocks that are their nonces: the value of a proof of work
-- is the nonce, the target is 5, and each hash is read as that of the value 3.
use htn_stratum_bridge.Prelude.{
  ℕ, ◌+◌, ◌≡◌, refl, true, false, none, some, List, [], ◌∷◌, codes, has_prefix, lookup, insert,
  bytes_Eq, nat_Eq, pos, int_inc, int_rem, parse_int, parse_hex64, digits_value, le_value, arith,
}
use htn_stratum_bridge.Rpc.{Header, Block}
use htn_stratum_bridge.Mining.{
  Diff, MiningState, mining_state_generator, add_job, get_job, remove_job,
}
use htn_stratum_bridge.Db.{record_block}
use htn_stratum_bridge.Stratum.{Param, text, Client}
use htn_stratum_bridge.Share.{SubmitInfo, remove_0x, validate_submit, check_stales}
use htn_stratum_bridge.Share.Stats.{WorkStats, new_stats, get_create_stats, update_rolling_counters}
use htn_stratum_bridge.Share.Owner.{owner}
use htn_stratum_bridge.Share.Tally.{
  stale_share, success, replies, SubmitNode, Consensus, ShareHandler, submit, classify,
  pending_block,
}
use htn_stratum_bridge.Share.Submit.{judge, Outcome, handle_submit}
use htn_stratum_bridge.Share.Effects.{submitted}
use htn_stratum_bridge.Share.Checks.{Submission, handle_submit-Submission}
use htn_stratum_bridge.Share.Again.{second_submission}
use htn_stratum_bridge.Share.Counting.{Fits, submission_counted}
use htn_stratum_bridge.Share.Rolling.{rolled, rolled_diff, rest_of, update_rolling_counters_lem}
use htn_stratum_bridge.Share.Unsubmitted.{share_recorded_as_block}

abbrev plus : ℕ → ℕ → ℕ
plus a b = a + b

abbrev consensus : Consensus ℕ
consensus = record {
  parse_hash = λ s. some (3 ∷ []);
  to_domain_block = λ b h. some 0;
  set_nonce = λ n d. n;
  block_hash = λ d. codes "hh";
  pow_value = λ d. d;
  target = λ d. 5;
}

abbrev strict : Consensus ℕ
strict = record consensus { target = λ d. 2 }

abbrev node : SubmitNode
node = record { is_synced = some true; submit_error = none }

abbrev ctx : Client
ctx = record {
  remote_addr = codes "10.0.0.1";
  wallet_addr = codes "hoosat:qq";
  worker_name = codes "rig";
}

abbrev header : Header
header = record {
  version = 5;
  parents = [];
  hash_merkle_root = [];
  accepted_id_merkle_root = [];
  utxo_commitment = [];
  timestamp = 1;
  bits = 1;
  daa_score = 1;
  blue_score = 20;
  blue_work = [];
  pruning_point = [];
}

abbrev block : Block
block = record { header = some header; verbose_data = none; transactions = [] }

abbrev diff : Diff ℕ
diff = record { hash_value = 1; diff_value = 1; target_value = pos 9 }

abbrev jobs : MiningState ℕ
jobs = record (add_job (some block) false (mining_state_generator 0)).0 { stratum_diff = some diff }

abbrev handler : ShareHandler ℕ
handler = record {
  stats = [];
  overall = new_stats 0 plus 0 [] [];
  tip_blue_score = 0;
  mining_db = some [];
}

abbrev params : List Param
params = text (codes "rig") ∷ text (codes "1") ∷ text (codes "0x3") ∷ text (codes "0xab") ∷ []

abbrev now : ℕ
now = 6000

abbrev outcome : Outcome ℕ ℕ
outcome = handle_submit 0 plus consensus node now 6000000 ctx params jobs handler

goes_to_node : submitted outcome.effects ≡ some 3
unfolding handle_submit validate_submit mining_state_generator add_job get_job lookup insert
    remove_0x parse_int parse_hex64 digits_value check_stales get_create_stats judge classify submit
    submitted le_value owner has_prefix int_inc int_rem remove_job
goes_to_node = refl

handle_submit-Submission_example :
    Submission 0 plus consensus node now 6000000 ctx params jobs handler 3 outcome
handle_submit-Submission_example =
    handle_submit-Submission 0 plus consensus node now 6000000 ctx params jobs handler 3
      goes_to_node

second_submission_example :
    let again =
      handle_submit 0 plus consensus node 6001 6001000 ctx params outcome.mining outcome.handler in
    (again.answer ≡ replies stale_share)
    × (submitted again.effects ≡ none)
    × (again.handler ≡ outcome.handler)
second_submission_example =
    second_submission 0 plus consensus node now 6000000 ctx params jobs handler outcome.handler 3
      node 6001 6001000 ctx goes_to_node

submission_counted_example :
    Fits
      (validate_submit consensus.parse_hash params jobs)
      outcome.answer
      handler.overall
      outcome.handler.overall
submission_counted_example =
    submission_counted 0 plus consensus node now 6000000 ctx params jobs handler

abbrev worker : WorkStats ℕ
worker = new_stats 0 plus 0 (codes "hoosat:qq") (codes "rig")

update_rolling_counters_lem_example :
    let w' = update_rolling_counters 0 plus now 1 false false worker in
    (lookup 100 w'.rolling_shares ≡ rolled true 100 100 worker.rolling_shares)
    × (lookup 100 w'.rolling_stale_shares ≡ rolled false 100 100 worker.rolling_stale_shares)
    × (lookup 100 w'.rolling_invalid_shares ≡ rolled false 100 100 worker.rolling_invalid_shares)
    × (lookup 100 w'.rolling_shares_diff
        ≡ rolled_diff 0 plus 1 true 100 100 worker.rolling_shares_diff)
    × (rest_of w' ≡ rest_of worker)
update_rolling_counters_lem_example =
    update_rolling_counters_lem 0 plus now 100 1 false false worker

abbrev info : SubmitInfo
info = record { job_id = pos 1; block = some block; noncestr = codes "3"; pow_hash = 3 ∷ [] }

share_recorded_as_block_example :
    let o = judge 0 plus strict node now 6000000 ctx worker block 3 info jobs handler in
    (submitted o.effects ≡ none)
    × (o.answer ≡ replies success)
    × (o.handler.overall.blocks_found ≡ int_inc handler.overall.blocks_found)
    × (o.handler.mining_db
        ≡ some (
            record_block (pending_block 6000000 (codes "hh") (codes "hoosat:qq") (codes "rig")) []))
unfolding le_value owner
share_recorded_as_block_example =
    share_recorded_as_block 0 plus strict node now 6000000 ctx worker block 3 info jobs handler diff
      9 [] (codes "hoosat:qq") refl refl refl (ground arith) (ground arith) refl refl
