-- ===== src/Rewards.antt =====
-- src/htnstratum/miner_rewards.go: what a chain block's coinbase pays an address, and how that is
-- attributed to the blocks that the address mined. `strings.ToLower` is the parameter `to_lower`.
pub mod Coinbase
pub mod Split
pub mod Chain
pub mod Mined
pub mod Order
pub mod Recorded
pub mod Payload
pub mod Reading
pub mod Announced
mod Tests
use htn_stratum_bridge.Prelude.{
  ℕ, zero, suc, ◌+◌, ◌/◌, ◌%◌, ◌^◌, Bool, true, false, ◌&&◌, ◌||◌, not, Option, none, some, List,
  [], ◌∷◌, ◌++◌, length, drop, Bytes, codes, is_empty, has_prefix, bytes_eq, trim_space, ltb,
  nat_eq, if◌then◌else◌,
}
use htn_stratum_bridge.Rpc.{TransactionOutput, Transaction, Header, VerboseData, Block}

-- `stripHRPRewards`
unfoldable pub strip_hrp : Bytes → Bytes
strip_hrp s =
    if has_prefix s (codes "hoosat:")
    then drop 7 s
    else if has_prefix s (codes "hoosattest:")
    then drop 11 s
    else s

-- `block.Transactions[0]`, where there is one and it is not nil, and has outputs.
abbrev pub coinbase_outputs : Block → List (Option TransactionOutput)
coinbase_outputs b = elim b.transactions [
  | [] ↦ []
  | t ∷ ts ↦ elim t [ none ↦ [] | some cb ↦ cb.outputs ]
]

module _ (to_lower : Bytes → Bytes) where
  -- The address of an output, as it is compared; `none` where the code skips the output.
  abbrev pub output_address : Option TransactionOutput → Option (Bytes × ℕ)
  output_address none = none
  output_address (some o) = elim o.verbose_data [
    | none ↦ none
    | some v ↦ some (to_lower (strip_hrp v.script_public_key_address), o.amount)
  ]

  -- The loop over the outputs.
  unfoldable pub sum_outputs : Bytes → List (Option TransactionOutput) → Bool → ℕ → Bool × ℕ
  sum_outputs addr [] matched sum = (matched, sum)
  sum_outputs addr (o ∷ os) matched sum = elim (output_address o) [
    | none ↦ sum_outputs addr os matched sum
    | some (a, amount) ↦
        let paid = sum_outputs addr os true ((sum + amount) % 2 ^ 64) in
        let other = sum_outputs addr os matched sum in if bytes_eq a addr then paid else other
  ]

  unfoldable pub coinbase_sum_to_address : Block → Bytes → Bool × ℕ
  unfolding sum_outputs strip_hrp
  coinbase_sum_to_address b addr =
      sum_outputs (to_lower (strip_hrp (trim_space addr))) (coinbase_outputs b) false 0

-- `minedBlue`
pub record MinedBlue : Type 0 where
  pub hash : Bytes
  pub worker : Bytes

pub record RewardsRow : Type 0 where
  pub mined_blue_hash : Bytes
  pub worker : Bytes
  pub reward_atoms : ℕ
  pub paid_by_block_hash : Bytes
  pub paid_blue_score : ℕ
  pub paid_at_ms : ℕ

module _ (sanitize : Bytes → Bytes) where
  -- A mined blue that the worker filter leaves out.
  abbrev pub skips : Bytes → MinedBlue → Bool
  skips filter mb = not (is_empty filter) && not (bytes_eq (sanitize mb.worker) (sanitize filter))

  -- The loop of `processPayingBlock` over the mined blues; `sanitize` is `sanitizeWorkerIDRewards`.
  unfoldable pub reward_rows :
      Bytes → (MinedBlue → ℕ → RewardsRow) → ℕ → ℕ → Bool → List MinedBlue → List RewardsRow
  reward_rows filter row portion remainder assigned [] = []
  reward_rows filter row portion remainder assigned (mb ∷ mined) =
      let skipped = reward_rows filter row portion remainder assigned mined in
      let included = reward_rows filter row portion remainder true mined in
      if skips filter mb
      then skipped
      else row mb (if assigned then portion else (portion + remainder) % 2 ^ 64) ∷ included

  -- The second half of `processPayingBlock`, where the coinbase pays `amount` and the mined blues
  -- are known. No mined blue, or none that passes the filter, gives no rows.
  unfoldable pub split_reward :
      Bytes → (MinedBlue → ℕ → RewardsRow) → ℕ → List MinedBlue → List RewardsRow
  unfolding reward_rows
  split_reward filter row amount mined =
      let n = length mined in
      if nat_eq n 0 then [] else reward_rows filter row (amount / n) (amount % n) false mined

  -- `processPayingBlock`, where `find_mined` is `findMinedBluesFromMergeSet` for the wallet.
  unfoldable pub process_paying_block :
      (Bytes → Bytes)
      → (List Bytes → List MinedBlue)
      → Option Block
      → Bytes
      → Bytes
      → List RewardsRow
  unfolding coinbase_sum_to_address split_reward
  process_paying_block to_lower find_mined none addr filter = []
  process_paying_block to_lower find_mined (some b) addr filter = elim b.verbose_data [
    | none ↦ []
    | some v ↦
        let (matched, amount) = coinbase_sum_to_address to_lower b addr in
        let paid_at : ℕ = elim b.header [ none ↦ 0 | some h ↦ h.timestamp ] in
        let row : MinedBlue → ℕ → RewardsRow = λ mb atoms. record {
          mined_blue_hash = mb.hash;
          worker = mb.worker;
          reward_atoms = atoms;
          paid_by_block_hash = v.hash;
          paid_blue_score = v.blue_score;
          paid_at_ms = paid_at;
        } in
        if not v.is_chain_block || (not matched || nat_eq amount 0)
        then []
        else split_reward filter row amount (find_mined v.merge_set_blues_hashes)
  ]
