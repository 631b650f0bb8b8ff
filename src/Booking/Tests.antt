-- ===== src/Booking/Tests.antt =====
-- Runs of `fetchAndUpdateReward` on a chain of one block, which pays the wallet 7 atoms.
use htn_stratum_bridge.Prelude.{
  ℕ, ◌≡◌, ◌<◌, ◌^◌, All, refl, true, false, none, some, [], ◌∷◌, Bytes, codes, bytes_eq, has_prefix,
  trim_space, arith,
}
use htn_stratum_bridge.Rpc.{TransactionOutput, Transaction, VerboseData, Block}
use htn_stratum_bridge.Rewards.{coinbase_sum_to_address, strip_hrp, sum_outputs}
use htn_stratum_bridge.Db.{
  BlockRecord, Table, any_row, record_block, find_row, get_block, update_rows, update_reward,
  set_accepting_block_hash, has_accepting_excluding,
}
use htn_stratum_bridge.Db.Linked.{link}
use htn_stratum_bridge.Booking.{
  View, settles, contains, or_unchanged, visit, walk, attempt, attempts, conclude,
  fetch_and_update_reward,
}
use htn_stratum_bridge.Booking.Payment.{Payment, walk-Payment}
use htn_stratum_bridge.Booking.Single.{IsNamed}
use htn_stratum_bridge.Booking.Once.{empty, records, looks_up, NoTwo, BothPaid, booked_once}
use htn_stratum_bridge.Booking.Race.{booked_twice}
use htn_stratum_bridge.Booking.Final.{IsDescribed, IsBounded, IsDecided, fetch_settles}

abbrev lower : Bytes → Bytes
lower s = s

abbrev me : Bytes
me = codes "hoosat:qq"

abbrev verbose : VerboseData
verbose = record {
  hash = codes "aa";
  blue_score = 5;
  is_chain_block = true;
  selected_parent_hash = [];
  merge_set_blues_hashes = codes "bb" ∷ codes "cc" ∷ [];
  merge_set_reds_hashes = [];
}

abbrev output : Bytes → ℕ → TransactionOutput
output address amount = record {
  amount = amount;
  verbose_data = some (record { script_public_key_address = address });
}

abbrev coinbase : Transaction
coinbase = record { outputs = some (output me 7) ∷ []; payload = [] }

abbrev chain_block : Block
chain_block = record {
  header = none;
  verbose_data = some verbose;
  transactions = some coinbase ∷ [];
}

abbrev view : View
view = record { block = λ h. some chain_block; added_chain_block_hashes = some (codes "aa" ∷ []) }

abbrev mined : Bytes → BlockRecord
mined hash = record {
  id = 0;
  timestamp = 1;
  block_hash = hash;
  wallet_address = me;
  worker_name = codes "rig";
  reward_atoms = 0;
  status = codes "pending";
  accepting_block_hash = some [];
}

abbrev rows : Table
rows = record_block (mined (codes "cc")) (record_block (mined (codes "bb")) [])

pays_seven : coinbase_sum_to_address lower chain_block me ≡ (true, 7)
unfolding coinbase_sum_to_address sum_outputs strip_hrp trim_space bytes_eq has_prefix
pays_seven = refl

abbrev settled : Table
settled = or_unchanged rows (set_accepting_block_hash (codes "bb") (codes "aa") rows)

walked : walk lower view me (codes "bb") (codes "aa" ∷ []) rows ≡ settles (codes "blue") 7 settled
unfolding walk visit contains coinbase_sum_to_address sum_outputs strip_hrp trim_space bytes_eq
    has_prefix record_block any_row has_accepting_excluding
walked = refl

walk-Payment_example :
    (accepting : Bytes) × (contains accepting (codes "aa" ∷ []) ≡ true)
    × Payment lower view me (codes "bb") rows 7 accepting
    × (settled ≡ or_unchanged rows (set_accepting_block_hash (codes "bb") accepting rows))
walk-Payment_example =
    walk-Payment lower view me (codes "bb") (codes "blue") (codes "aa" ∷ []) rows settled 7 walked
      (ground arith)

view-IsNamed : IsNamed view
unfolding contains bytes_eq
view-IsNamed [] chain e inside = absurd (ground arith)
view-IsNamed (c ∷ h) chain e inside = refl

abbrev looked_up : Table
looked_up = or_unchanged settled (update_reward (codes "bb") 7 (codes "blue") settled)

booked_once_example : NoTwo BothPaid looked_up
unfolding fetch_and_update_reward attempts attempt conclude get_block find_row walk visit contains
    coinbase_sum_to_address sum_outputs strip_hrp trim_space bytes_eq has_prefix record_block
    any_row has_accepting_excluding
booked_once_example = booked_once lower looked_up (
    looks_up (codes "bb") (view ∷ []) rows looked_up
      (records (mined (codes "cc")) _ (records (mined (codes "bb")) [] empty refl) refl)
      (view-IsNamed, tt) refl)

abbrev linked : Table
linked = update_rows (codes "bb") (link (codes "aa")) rows

booked_twice_example :
    (visit lower view me (codes "bb") (codes "aa") false rows ≡ settles (codes "blue") 7 linked)
    × (visit lower view me (codes "cc") (codes "aa") false linked ≡ settles (codes "blue") 7 linked)
unfolding record_block any_row find_row contains has_accepting_excluding bytes_eq
booked_twice_example =
    booked_twice lower view (codes "cc") (codes "bb") (codes "aa") rows
      (record (mined (codes "cc")) { id = 2 }) (record (mined (codes "bb")) { id = 1 }) chain_block
      verbose 7 refl refl refl refl refl refl refl refl refl pays_seven (ground arith)

view-IsDescribed : IsDescribed view
view-IsDescribed h b known nothing = ground arith

pays_little : (wallet : Bytes) → (coinbase_sum_to_address lower chain_block wallet).1 < 2 ^ 63
unfolding coinbase_sum_to_address sum_outputs strip_hrp trim_space
pays_little wallet = ground (arith)

view-IsBounded : IsBounded lower view
view-IsBounded h wallet b known =
    let same : chain_block ≡ b = ground arith in rw (← same) (pays_little wallet)

fetch_settles_example :
    (rows' : Table) × (fetch_and_update_reward lower (codes "bb") (view ∷ []) rows ≡ some rows')
    × All (IsDecided (codes "bb")) rows'
fetch_settles_example =
    fetch_settles lower (codes "bb") (view ∷ []) rows (view-IsDescribed, tt) (view-IsBounded, tt)
