-- ===== src/Rewards/Tests.antt =====
-- Runs of src/htnstratum/miner_rewards.go on a block whose coinbase pays 7 atoms.
use htn_stratum_bridge.Prelude.{
  zero, suc, ℕ, ◌+◌, ◌*◌, ◌/◌, ◌%◌, ◌^◌, ◌≤◌, ◌≡◌, ◌≢◌, refl, true, not, ◌++◌, none, some, List, [],
  ◌∷◌, Bytes, codes, has_prefix, ap, All, length, pos, hex_decode, is_empty, trim_space, bytes_eq,
  arith,
}
use htn_stratum_bridge.Rpc.{TransactionOutput, Transaction, VerboseData, Block}
use htn_stratum_bridge.Rewards.{
  strip_hrp, coinbase_outputs, sum_outputs, coinbase_sum_to_address, MinedBlue,
  process_paying_block,
}
use htn_stratum_bridge.Rewards.Coinbase.{paid, total, coinbase_sum_lem}
use htn_stratum_bridge.Rewards.Mined.{
  bytes_lt, place_blue, sort_by_hash, collect_blues, find_mined_blues_from_merge_set,
}
use htn_stratum_bridge.Rewards.Recorded.{HasShare, recorded_block_shares}
use htn_stratum_bridge.Rewards.Order.{find_mined_blues-Perm}
use htn_stratum_bridge.Db.{BlockRecord, Table, found, find_row, get_block}
use mathlib.Core.List.{Permᴰ, Memᴰ}
use htn_stratum_bridge.Rewards.Split.{
  sum_rewards, count_passing, bonus, sum-process_paying_block, reward_conserved,
}
use htn_stratum_bridge.Worker.{sanitize_worker_id}
use htn_stratum_bridge.Api.{extra_data}
use htn_stratum_bridge.Rewards.Payload.{extract_worker_from_payload, worker_in}
use htn_stratum_bridge.Rewards.Reading.{IsData}
use htn_stratum_bridge.Rewards.Announced.{worker_announced}

abbrev lower : Bytes → Bytes
lower s = s

abbrev me : Bytes
me = codes "hoosat:qq"

abbrev verbose : VerboseData
verbose = record {
  hash = codes "aa";
  blue_score = 5;
  is_chain_block = true;
  selected_parent_hash = [];
  merge_set_blues_hashes = codes "bb" ∷ codes "cc" ∷ [];
  merge_set_reds_hashes = [];
}

abbrev output : Bytes → ℕ → TransactionOutput
output address amount = record {
  amount = amount;
  verbose_data = some (record { script_public_key_address = address });
}

abbrev coinbase : Transaction
coinbase = record {
  outputs = some (output me 4) ∷ some (output (codes "hoosat:zz") 9) ∷ some (output me 3) ∷ [];
  payload = [];
}

abbrev block : Block
block = record { header = none; verbose_data = some verbose; transactions = some coinbase ∷ [] }

abbrev find_mined : List Bytes → List MinedBlue
find_mined hashes =
    record { hash = codes "bb"; worker = codes "rig" }
    ∷ record { hash = codes "cc"; worker = codes "gpu" }
    ∷ []

pays_seven : coinbase_sum_to_address lower block me ≡ (true, 7)
unfolding coinbase_sum_to_address sum_outputs strip_hrp trim_space bytes_eq has_prefix
pays_seven = refl

coinbase_sum_lem_example :
    let amounts = paid lower (lower (strip_hrp (trim_space me))) (coinbase_outputs block) in
    (coinbase_sum_to_address lower block me ≡ (not (is_empty amounts), total amounts % 2 ^ 64))
    × (strip_hrp (codes "hoosat:" ++ codes "qq") ≡ codes "qq")
    × (strip_hrp (codes "hoosattest:" ++ codes "qq") ≡ codes "qq")
coinbase_sum_lem_example = coinbase_sum_lem lower block me (codes "qq")

not_nothing : (coinbase_sum_to_address lower block me).1 ≢ 0
not_nothing = rw pays_seven (ground arith)

-- The filter `rig` leaves out the block mined by the worker `gpu`.
sum-process_paying_block_example :
    let amount = (coinbase_sum_to_address lower block me).1 in
    sum_rewards (process_paying_block lower lower find_mined (some block) me (codes "rig"))
    ≡ (amount / 2) * count_passing lower (codes "rig") (find_mined verbose.merge_set_blues_hashes)
      + bonus
          (amount % 2)
          (count_passing lower (codes "rig") (find_mined verbose.merge_set_blues_hashes))
sum-process_paying_block_example =
    sum-process_paying_block lower (codes "rig") lower find_mined block verbose me refl refl
      (ap (λ r. r.0) pays_seven) not_nothing (ground arith)

reward_conserved_example :
    let amount = (coinbase_sum_to_address lower block me).1 in
    let total = sum_rewards (process_paying_block lower lower find_mined (some block) me []) in
    (is_empty [] ≡ true → total ≡ amount) × (total ≤ amount)
reward_conserved_example =
    reward_conserved lower [] lower find_mined block verbose me refl refl (ap (λ r. r.0) pays_seven)
      not_nothing (ground arith)

abbrev no_worker : Block → Bytes
no_worker b = []

abbrev fill : ℕ → ℕ → Bytes
fill zero c = []
fill (suc n) c = c ∷ fill n c

abbrev hash_a : Bytes
hash_a = fill 64 b'a'

abbrev hash_b : Bytes
hash_b = fill 64 b'b'

abbrev mined_row : Bytes → BlockRecord
mined_row hash = record {
  id = 1;
  timestamp = 1;
  block_hash = hash;
  wallet_address = me;
  worker_name = codes "rig";
  reward_atoms = 0;
  status = codes "pending";
  accepting_block_hash = some [];
}

abbrev rows : Table
rows = mined_row hash_a ∷ mined_row hash_b ∷ []

-- Both blocks are in the merge set, recorded for `me`.
abbrev merging : Block
merging = record block {
  verbose_data = some (record verbose { merge_set_blues_hashes = hash_b ∷ hash_a ∷ [] });
}

abbrev other : Bytes
other = codes "hoosat:zz"

abbrev find_recorded : List Bytes → List MinedBlue
find_recorded hashes =
    find_mined_blues_from_merge_set lower no_worker (λ h. some block) hashes other (some rows)

pays_nine : coinbase_sum_to_address lower merging other ≡ (true, 9)
unfolding coinbase_sum_to_address sum_outputs strip_hrp trim_space bytes_eq has_prefix
pays_nine = refl

a_recorded : get_block hash_a rows ≡ found (mined_row hash_a)
unfolding get_block find_row bytes_eq
a_recorded = refl

recorded_block_shares_example :
    let n = length (find_recorded (hash_b ∷ hash_a ∷ [])) in
    HasShare hash_a
      (codes "rig")
      (9 / n)
      (9 % n)
      (process_paying_block lower lower find_recorded (some merging) other [])
recorded_block_shares_example =
    recorded_block_shares lower no_worker (λ h. some block) lower rows merging
      (record verbose { merge_set_blues_hashes = hash_b ∷ hash_a ∷ [] }) other hash_a
      (mined_row hash_a) 9 refl refl pays_nine (ground arith) (Memᴰ.tail (Memᴰ.head refl)) refl
      a_recorded

find_mined_blues-Perm_example :
    find_mined_blues_from_merge_set lower no_worker
      (λ h. some block)
      (hash_b ∷ hash_a ∷ [])
      me
      (some rows)
    ≡ find_mined_blues_from_merge_set lower no_worker
        (λ h. some block)
        (hash_a ∷ hash_b ∷ [])
        me
        (some rows)
find_mined_blues-Perm_example =
    find_mined_blues-Perm lower no_worker (λ h. some block) (some rows) me (hash_b ∷ hash_a ∷ [])
      (hash_a ∷ hash_b ∷ []) (Permᴰ.swap refl refl)

-- Sorted, although the merge set is not.
sorted_blues :
    find_mined_blues_from_merge_set lower no_worker
      (λ h. some block)
      (hash_b ∷ hash_a ∷ [])
      me
      (some rows)
    ≡ record { hash = hash_a; worker = codes "rig" }
      ∷ record { hash = hash_b; worker = codes "rig" }
      ∷ []
unfolding find_mined_blues_from_merge_set collect_blues sort_by_hash place_blue bytes_lt get_block
    find_row bytes_eq
sorted_blues = refl

address-IsData : All IsData (codes "qq2g85")
address-IsData = ground arith

worker_announced_example :
    worker_in (extra_data (pos 0) (pos 0) (pos 0) (codes "hoosat:qq2g85") (codes "My Rig"))
    ≡ sanitize_worker_id (codes "My Rig")
worker_announced_example =
    worker_announced (pos 0) (pos 0) (pos 0) (codes "qq2g85") (codes "My Rig") refl refl
      address-IsData

-- The same name, from a payload in hexadecimal: "as worker r1".
hex_payload :
    extract_worker_from_payload (record block {
      transactions =
          some (record { outputs = []; payload = codes "617320776f726b6572207231" }) ∷ [];
    })
    ≡ codes "r1"
unfolding extract_worker_from_payload hex_decode trim_space
hex_payload = refl
