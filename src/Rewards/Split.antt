-- ===== src/Rewards/Split.antt =====
-- `processPayingBlock` of src/htnstratum/miner_rewards.go: how a reward is split.
use htn_stratum_bridge.Prelude.{
  ℕ, zero, suc, ◌+◌, ◌*◌, ◌/◌, ◌%◌, ◌^◌, ◌≤◌, ◌<◌, ◌≡◌, ◌≢◌, refl, ◌∙◌, Bool, true, false, ◌||◌,
  not, none, some, List, [], ◌∷◌, length, Bytes, is_empty, nat_eq, if◌then◌else◌, arith,
}
use native.Mathlib.Nat.{zero-add, div-add-mod, mul-le-mul_left}
use htn_stratum_bridge.Rpc.{VerboseData, Block}
use htn_stratum_bridge.Rewards.Coinbase.{coinbase_sum-lt}
use htn_stratum_bridge.Rewards.{
  MinedBlue, RewardsRow, skips, reward_rows, split_reward, process_paying_block,
  coinbase_sum_to_address,
}

unfoldable pub sum_rewards : List RewardsRow → ℕ
sum_rewards [] = 0
sum_rewards (r ∷ rows) = r.reward_atoms + sum_rewards rows

-- The remainder goes to one row, if there is any.
abbrev pub bonus : ℕ → ℕ → ℕ
bonus remainder zero = 0
bonus remainder (suc k) = remainder

bonus-suc : (remainder k : ℕ) → bonus remainder (1 + k) ≡ remainder
bonus-suc remainder k = ground arith

parts-le : (amount n : ℕ) → n ≢ 0 → amount / n + amount % n ≤ amount
parts-le amount zero h = absurd (h refl)
parts-le amount (suc n) h = omega (arith, div-add-mod amount (suc n))

whole : (amount n : ℕ) → n ≢ 0 → (amount / n) * n + bonus (amount % n) n ≡ amount
whole amount zero h = absurd (h refl)
whole amount (suc n) h = omega (arith, div-add-mod amount (suc n))

share-le : (amount n k : ℕ) → n ≢ 0 → k ≤ n → (amount / n) * k + bonus (amount % n) k ≤ amount
share-le amount n zero h le = omega arith
share-le amount n (suc k) h le =
    grind (arith, div-add-mod amount n, mul-le-mul_left (amount / n) le)

module _ (sanitize : Bytes → Bytes) (filter : Bytes) where
  -- How many mined blues pass the worker filter.
  unfoldable pub count_passing : List MinedBlue → ℕ
  count_passing [] = 0
  count_passing (mb ∷ mined) = (if skips sanitize filter mb then 0 else 1) + count_passing mined

  count_passing-le : (mined : List MinedBlue) → count_passing mined ≤ length mined
  unfolding count_passing
  count_passing-le [] = omega arith
  count_passing-le (mb ∷ mined) = ground (arith, count_passing-le mined)

  module _ (row : MinedBlue → ℕ → RewardsRow)
      (amounts : (mb : MinedBlue) (atoms : ℕ) → (row mb atoms).reward_atoms ≡ atoms) where
    sum_assigned :
        (portion remainder : ℕ) (mined : List MinedBlue)
        → sum_rewards (reward_rows sanitize filter row portion remainder true mined)
          ≡ portion * count_passing mined
    unfolding sum_rewards reward_rows count_passing
    sum_assigned portion remainder [] = omega arith
    sum_assigned portion remainder (mb ∷ mined) =
        go (skips sanitize filter mb) (sum_assigned portion remainder mined)
      where
        rest : List RewardsRow
        rest = reward_rows sanitize filter row portion remainder true mined

        go :
            (b : Bool)
            → sum_rewards rest ≡ portion * count_passing mined
            → sum_rewards (if b then rest else row mb portion ∷ rest)
              ≡ portion * ((if b then 0 else 1) + count_passing mined)
        go true ih = omega arith
        go false ih = rw (amounts mb portion) (omega arith)

    sum_unassigned :
        (portion remainder : ℕ) (mined : List MinedBlue)
        → portion + remainder < 2 ^ 64
        → sum_rewards (reward_rows sanitize filter row portion remainder false mined)
          ≡ portion * count_passing mined + bonus remainder (count_passing mined)
    unfolding sum_rewards reward_rows count_passing
    sum_unassigned portion remainder [] h = omega arith
    sum_unassigned portion remainder (mb ∷ mined) h =
        go (skips sanitize filter mb) (sum_unassigned portion remainder mined h)
          (sum_assigned portion remainder mined)
      where
        rest : List RewardsRow
        rest = reward_rows sanitize filter row portion remainder false mined

        included : List RewardsRow
        included = reward_rows sanitize filter row portion remainder true mined

        go :
            (b : Bool)
            → sum_rewards rest
              ≡ portion * count_passing mined + bonus remainder (count_passing mined)
            → sum_rewards included ≡ portion * count_passing mined
            → sum_rewards (if b then rest else row mb ((portion + remainder) % 2 ^ 64) ∷ included)
              ≡ portion * ((if b then 0 else 1) + count_passing mined)
                + bonus remainder ((if b then 0 else 1) + count_passing mined)
        go true ih all = rw zero-add (ih)
        go false ih all =
            rw (amounts mb ((portion + remainder) % 2 ^ 64))
              (omega (arith, bonus-suc remainder (count_passing mined)))

    -- The rows that pass the filter share the reward in equal parts, and the first of them has the
    -- remainder too.
    sum-split_reward :
        (amount : ℕ) (mined : List MinedBlue)
        → amount < 2 ^ 64
        → length mined ≢ 0
        → sum_rewards (split_reward sanitize filter row amount mined)
          ≡ (amount / length mined) * count_passing mined
            + bonus (amount % length mined) (count_passing mined)
    unfolding split_reward
    sum-split_reward amount mined h ne =
        let some_mined : nat_eq (length mined) 0 ≡ false = ground arith in
        rw some_mined (
          sum_unassigned (amount / length mined) (amount % length mined) mined
            (omega (arith, parts-le amount (length mined) ne)))

  count_passing_all :
      is_empty filter ≡ true → (mined : List MinedBlue) → count_passing mined ≡ length mined
  unfolding count_passing
  count_passing_all none_wanted [] = refl
  count_passing_all none_wanted (mb ∷ mined) =
      rw none_wanted (omega (arith, count_passing_all none_wanted mined))

  module _ (to_lower : Bytes → Bytes) (find_mined : List Bytes → List MinedBlue) (b : Block)
      (v : VerboseData) (addr : Bytes) (verbose : b.verbose_data ≡ some v)
      (chain : v.is_chain_block ≡ true)
      (pays_us : (coinbase_sum_to_address to_lower b addr).0 ≡ true)
      (not_nothing : (coinbase_sum_to_address to_lower b addr).1 ≢ 0)
      (mined_some : length (find_mined v.merge_set_blues_hashes) ≢ 0) where
    -- The rows of a block that pays us add up to equal whole parts of the amount, one for each
    -- mined blue that passes the filter, and the remainder once, if any passes.
    pub sum-process_paying_block :
        let amount = (coinbase_sum_to_address to_lower b addr).1 in
        let mined = find_mined v.merge_set_blues_hashes in
        sum_rewards (process_paying_block sanitize to_lower find_mined (some b) addr filter)
        ≡ (amount / length mined) * count_passing mined
          + bonus (amount % length mined) (count_passing mined)
    unfolding process_paying_block
    sum-process_paying_block =
        let r = coinbase_sum_to_address to_lower b addr in
        let goes_on : (not v.is_chain_block || (not r.0 || nat_eq r.1 0)) ≡ false = ground arith in
        let row : MinedBlue → ℕ → RewardsRow = λ mb atoms. record {
          mined_blue_hash = mb.hash;
          worker = mb.worker;
          reward_atoms = atoms;
          paid_by_block_hash = v.hash;
          paid_blue_score = v.blue_score;
          paid_at_ms = elim b.header [ none ↦ 0 | some h ↦ h.timestamp ];
        } in
        simp (verbose, goes_on)
          (sum-split_reward row (λ mb atoms. refl) r.1 (find_mined v.merge_set_blues_hashes)
            (coinbase_sum-lt to_lower b addr) mined_some)

    -- Nothing is paid out twice and, with no worker filter, nothing is lost: then the rows of a
    -- block that pays us add up to exactly what its coinbase pays. With a filter they add up to no
    -- more than that.
    pub reward_conserved :
        let amount = (coinbase_sum_to_address to_lower b addr).1 in
        let total =
          sum_rewards (process_paying_block sanitize to_lower find_mined (some b) addr filter) in
        (is_empty filter ≡ true → total ≡ amount) × (total ≤ amount)
    reward_conserved =
        let r = coinbase_sum_to_address to_lower b addr in
        let mined = find_mined v.merge_set_blues_hashes in
        (
          λ none_wanted.
              sum-process_paying_block
              ∙ rw (count_passing_all none_wanted mined) (whole r.1 (length mined) mined_some),
          rw sum-process_paying_block (
              share-le r.1 (length mined) (count_passing mined) mined_some
                (count_passing-le mined)),
        )
