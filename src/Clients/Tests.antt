-- ===== src/Clients/Tests.antt =====
-- Runs of `OnConnect` with extranonces of one byte, and of `NewBlockAvailable`.
use htn_stratum_bridge.Prelude.{
  ℕ, ◌≡◌, ◌≢◌, refl, false, none, some, List, [], ◌∷◌, get_elem?, pos, ◌+◌, codes, nat_eq, arith,
}
use htn_stratum_bridge.Pow.State.{zero_bytes}
use htn_stratum_bridge.Hasher.{serialize_block_header, generate_job_header}
use htn_stratum_bridge.Rpc.{Header, Block}
use htn_stratum_bridge.Mining.{MiningState, mining_state_generator, add_job}
use htn_stratum_bridge.Clients.{ClientListener, new_client_listener}
use htn_stratum_bridge.Clients.Extranonce.{extranonces, extranonces_distinct}
use htn_stratum_bridge.Clients.Job.{
  Action, went_through, template, Floats, Recipient, set_diff_value, initialize, change_diff,
  adjust, send_client_diff, send_work, respond, notify, calculate_target,
}
use htn_stratum_bridge.Clients.Told.{last_told, connects, is_notified, difficulty_told}

abbrev listener : ClientListener ℕ
listener = new_client_listener (pos 1)

extranonces_distinct_example :
    get_elem? (extranonces (5 ∷ 6 ∷ 7 ∷ []) listener) 0
    ≢ get_elem? (extranonces (5 ∷ 6 ∷ 7 ∷ []) listener) (0 + 2)
unfolding new_client_listener
extranonces_distinct_example =
    extranonces_distinct (5 ∷ 6 ∷ 7 ∷ []) listener 0 2 refl (ground arith) (ground arith)
      (ground arith) (ground arith)

-- Difficulties are natural numbers here.
abbrev floats : Floats ℕ
floats = record {
  zero_diff = 0;
  same = nat_eq;
  diff_to_target = λ d. pos d;
  diff_to_hash = λ d. d;
  target_to_diff = λ t. t;
}

abbrev header : Header
header = record {
  version = 1;
  parents = [];
  hash_merkle_root = [];
  accepted_id_merkle_root = [];
  utxo_commitment = [];
  timestamp = 9;
  bits = 50331653;
  daa_score = 0;
  blue_score = 0;
  blue_work = [];
  pruning_point = [];
}

abbrev block : Block
block = record { header = some header; verbose_data = none; transactions = [] }

-- 50331653 is 3 * 2^24 + 5.
calculate_target_example : calculate_target 50331653 ≡ 5
unfolding calculate_target
calculate_target_example = refl

abbrev client : Recipient ℕ
client = record {
  floats = floats;
  min_share_diff = 4;
  solo_mining = false;
  wallet_addr = codes "hoosat:qq";
  is_big_miner = false;
  timed_out = false;
  answer = template (some block) false;
  blake3 = λ b. zero_bytes 32;
  vardiff = 6;
  send_difficulty = λ d. went_through;
  send_job = went_through;
}

abbrev fresh : MiningState ℕ
fresh = mining_state_generator 0

-- The state and the actions of the first template.
abbrev first_work : MiningState ℕ × List (Action ℕ)
first_work = elim (notify client fresh) [ none ↦ (fresh, []) | some r ↦ r ]

difficulty_told_example : last_told none first_work.1 ≡ some 6
unfolding notify respond send_work initialize adjust change_diff send_client_diff set_diff_value
    mining_state_generator add_job serialize_block_header generate_job_header
difficulty_told_example =
    difficulty_told first_work.0 (last_told none first_work.1) (set_diff_value floats 6)
      (is_notified client fresh first_work.0 none first_work.1 refl (connects 0) refl) refl
