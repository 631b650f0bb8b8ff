-- ===== src/Server/RecoveryTests.antt =====
-- A run of the recovery of the pending rewards of two blocks, on a chain of one block that pays 7
-- atoms, with the two lookups taking turns.
use htn_stratum_bridge.Prelude.{
  ℕ, ◌+◌, ◌^◌, ◌<◌, ◌≤◌, ◌≡◌, refl, true, none, some, List, [], ◌∷◌, Bytes, codes, All, bytes_eq,
  has_prefix, trim_space, arith,
}
use htn_stratum_bridge.Rpc.{Block}
use htn_stratum_bridge.Rewards.{coinbase_sum_to_address, sum_outputs, strip_hrp}
use htn_stratum_bridge.Db.{
  BlockRecord, Table, any_row, find_row, get_block, has_accepting_excluding, update_rows,
  set_accepting_block_hash, update_reward,
}
use htn_stratum_bridge.Booking.{View, contains, visit}
use htn_stratum_bridge.Booking.Final.{IsBounded}
use htn_stratum_bridge.Server.Recovery.{
  pending_hashes, Recovery, recover_pending, advance, move, run,
}
use htn_stratum_bridge.Server.Waiting.{IsAhead}
use htn_stratum_bridge.Server.Recovered.{rounds_left, worked, recovery_ends}

abbrev lower : Bytes → Bytes
lower s = s

abbrev chain_block : Block
chain_block = record {
  header = none;
  verbose_data = some (record {
    hash = codes "aa";
    blue_score = 9;
    is_chain_block = true;
    selected_parent_hash = [];
    merge_set_blues_hashes = codes "bb" ∷ [];
    merge_set_reds_hashes = codes "cc" ∷ [];
  });
  transactions =
      some (record {
        outputs =
            some (record {
              amount = 7;
              verbose_data = some (record { script_public_key_address = codes "hoosat:qq" });
            })
            ∷ [];
        payload = [];
      })
      ∷ [];
}

abbrev view : View
view = record { block = λ h. some chain_block; added_chain_block_hashes = some (codes "aa" ∷ []) }

abbrev mined : ℕ → Bytes → BlockRecord
mined id hash = record {
  id = id;
  timestamp = 1;
  block_hash = hash;
  wallet_address = codes "hoosat:qq";
  worker_name = codes "rig";
  reward_atoms = 0;
  status = codes "pending";
  accepting_block_hash = some [];
}

abbrev rows : Table
rows = mined 1 (codes "bb") ∷ mined 2 (codes "cc") ∷ []

pays_little : (wallet : Bytes) → (coinbase_sum_to_address lower chain_block wallet).1 < 2 ^ 63
unfolding coinbase_sum_to_address sum_outputs strip_hrp trim_space
pays_little wallet = ground arith

view-IsBounded : IsBounded lower view
view-IsBounded h wallet b known =
    let same : chain_block ≡ b = ground arith in rw (← same) (pays_little wallet)

abbrev start : Recovery
start = recover_pending lower (λ h. view ∷ []) rows

abbrev turns : List ℕ
turns = 0 ∷ 1 ∷ 0 ∷ 1 ∷ 0 ∷ 1 ∷ 0 ∷ 1 ∷ []

recovery_ends_example :
    (rounds_left (run lower turns start).lookups + worked lower turns start
      ≤ rounds_left start.lookups)
    × All (IsAhead (run lower turns start).lookups) (run lower turns start).table
recovery_ends_example =
    recovery_ends lower (λ h. view ∷ []) rows turns
      (λ h. ((view-IsBounded, (λ k b known nothing. ground arith)), tt))

-- Both lookups have ended.
none_pending : pending_hashes (run lower turns start).table ≡ []
unfolding recover_pending pending_hashes run move advance visit contains coinbase_sum_to_address
    sum_outputs strip_hrp trim_space bytes_eq has_prefix get_block find_row any_row update_rows
    has_accepting_excluding set_accepting_block_hash update_reward
none_pending = refl
