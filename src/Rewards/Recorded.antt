-- ===== src/Rewards/Recorded.antt =====
-- Who shares in a reward with a table of blocks: `findMinedBluesFromMergeSet` and
-- `processPayingBlock` of src/htnstratum/miner_rewards.go.
use htn_stratum_bridge.Prelude.{
  ℕ, ◌+◌, ◌/◌, ◌%◌, ◌^◌, ◌≡◌, ◌≢◌, refl, sym, ap, ◌∙◌, ◌⊎◌, inl, inr, Bool, true, false, Option,
  none, some, List, [], ◌∷◌, length, Bytes, nat_eq, nat_eq_iff, if◌then◌else◌, arith,
}
use mathlib.Core.List.{Memᴰ}
use htn_stratum_bridge.Rpc.{VerboseData, Block}
use htn_stratum_bridge.Db.{BlockRecord, Table, found, get_block}
use htn_stratum_bridge.Rewards.{
  MinedBlue, RewardsRow, reward_rows, split_reward, coinbase_sum_to_address, process_paying_block,
}
use htn_stratum_bridge.Rewards.Mined.{
  bytes_lt, place_blue, sort_by_hash, mined_blue, collect_blues, find_mined_blues_from_merge_set,
}

Memᴰ-place_blue : (mb : MinedBlue) (l : List MinedBlue) → Memᴰ mb (place_blue mb l)
unfolding place_blue
Memᴰ-place_blue mb [] = Memᴰ.head refl
Memᴰ-place_blue mb (q ∷ rest) = go (bytes_lt q.hash mb.hash) (Memᴰ-place_blue mb rest)
  where
    go :
        (b : Bool)
        → Memᴰ mb (place_blue mb rest)
        → Memᴰ mb (if b then q ∷ place_blue mb rest else mb ∷ q ∷ rest)
    go true later = Memᴰ.tail later
    go false later = Memᴰ.head refl

place_blue-Memᴰ : (mb a : MinedBlue) (l : List MinedBlue) → Memᴰ a l → Memᴰ a (place_blue mb l)
unfolding place_blue
place_blue-Memᴰ mb a [] m = elim m [ ]
place_blue-Memᴰ mb a (q ∷ rest) (Memᴰ.head e) = go (bytes_lt q.hash mb.hash)
  where
    go : (b : Bool) → Memᴰ a (if b then q ∷ place_blue mb rest else mb ∷ q ∷ rest)
    go true = Memᴰ.head e
    go false = Memᴰ.tail (Memᴰ.head e)
place_blue-Memᴰ mb a (q ∷ rest) (Memᴰ.tail m) =
    go (bytes_lt q.hash mb.hash) (place_blue-Memᴰ mb a rest m)
  where
    go :
        (b : Bool)
        → Memᴰ a (place_blue mb rest)
        → Memᴰ a (if b then q ∷ place_blue mb rest else mb ∷ q ∷ rest)
    go true later = Memᴰ.tail later
    go false later = Memᴰ.tail (Memᴰ.tail m)

sort_by_hash-Memᴰ : (a : MinedBlue) (l : List MinedBlue) → Memᴰ a l → Memᴰ a (sort_by_hash l)
unfolding sort_by_hash
sort_by_hash-Memᴰ a [] m = elim m [ ]
sort_by_hash-Memᴰ a (q ∷ rest) (Memᴰ.head e) = rw e (Memᴰ-place_blue q (sort_by_hash rest))
sort_by_hash-Memᴰ a (q ∷ rest) (Memᴰ.tail m) =
    place_blue-Memᴰ q a (sort_by_hash rest) (sort_by_hash-Memᴰ a rest m)

-- A row for a mined blue and a worker, whose reward is an equal whole part of the amount, or that
-- with the remainder.
pub record HasShare (h worker : Bytes) (portion remainder : ℕ) (rows : List RewardsRow)
    : Type 0 where
  pub row : RewardsRow
  pub listed : Memᴰ row rows
  pub mined : row.mined_blue_hash ≡ h
  pub by : row.worker ≡ worker
  pub share : (row.reward_atoms ≡ portion) ⊎ (row.reward_atoms ≡ (portion + remainder) % 2 ^ 64)

module _ (sanitize : Bytes → Bytes) (row : MinedBlue → ℕ → RewardsRow)
    (names : (mb : MinedBlue) (n : ℕ) → (row mb n).mined_blue_hash ≡ mb.hash)
    (workers : (mb : MinedBlue) (n : ℕ) → (row mb n).worker ≡ mb.worker)
    (atoms : (mb : MinedBlue) (n : ℕ) → (row mb n).reward_atoms ≡ n) where
  reward_rows-HasShare :
      (portion remainder : ℕ) (assigned : Bool) (mb : MinedBlue) (mined : List MinedBlue)
      → Memᴰ mb mined
      → HasShare mb.hash mb.worker portion remainder
          (reward_rows sanitize [] row portion remainder assigned mined)
  unfolding reward_rows
  reward_rows-HasShare portion remainder assigned mb [] m = elim m [ ]
  reward_rows-HasShare portion remainder assigned mb (q ∷ mined) (Memᴰ.head e) = record {
    row = row q (if assigned then portion else (portion + remainder) % 2 ^ 64);
    listed = Memᴰ.head refl;
    mined = names q _ ∙ ap (λ q. q.hash) (sym e);
    by = workers q _ ∙ ap (λ q. q.worker) (sym e);
    share = go assigned;
  }
    where
      go :
          (b : Bool)
          → let n = (row q (if b then portion else (portion + remainder) % 2 ^ 64)).reward_atoms in
            (n ≡ portion) ⊎ (n ≡ (portion + remainder) % 2 ^ 64)
      go true = inl (atoms q _)
      go false = inr (atoms q _)
  reward_rows-HasShare portion remainder assigned mb (q ∷ mined) (Memᴰ.tail m) =
      let h = reward_rows-HasShare portion remainder true mb mined m in
      record {
        row = h.row;
        listed = Memᴰ.tail h.listed;
        mined = h.mined;
        by = h.by;
        share = h.share;
      }

  split_reward-HasShare :
      (amount : ℕ) (mb : MinedBlue) (mined : List MinedBlue)
      → Memᴰ mb mined
      → HasShare mb.hash mb.worker
          (amount / length mined)
          (amount % length mined)
          (split_reward sanitize [] row amount mined)
  unfolding split_reward
  split_reward-HasShare amount mb [] m = elim m [ ]
  split_reward-HasShare amount mb (q ∷ mined) m =
      let n = length (q ∷ mined) in
      let some_mined : nat_eq n 0 ≡ false = ground (arith, nat_eq_iff n 0) in
      rw some_mined (reward_rows-HasShare (amount / n) (amount % n) false mb (q ∷ mined) m)

module _ (to_lower : Bytes → Bytes) (extract_worker : Block → Bytes)
    (block : Bytes → Option Block) where
  collect_blues-Memᴰ :
      (rows : Table) (wallet h : Bytes) (r : BlockRecord) (hashes : List Bytes)
      → length h ≡ 64
      → get_block h rows ≡ found r
      → Memᴰ h hashes
      → Memᴰ
          (record { hash = h; worker = r.worker_name })
          (collect_blues to_lower extract_worker block (some rows) wallet hashes)
  unfolding collect_blues
  collect_blues-Memᴰ rows wallet h r [] full known m = elim m [ ]
  collect_blues-Memᴰ rows wallet h r (g ∷ hashes) full known (Memᴰ.head e) =
      let full' : nat_eq (length g) 64 ≡ true = rw (← e) ((nat_eq_iff (length h) 64).1 full) in
      let blue : Bytes → MinedBlue = λ k. record { hash = k; worker = r.worker_name } in
      rw full' (rw (← e) (rw known (Memᴰ.head (ap blue e))))
  collect_blues-Memᴰ rows wallet h r (g ∷ hashes) full known (Memᴰ.tail m) =
      go (nat_eq (length g) 64) (mined_blue to_lower extract_worker block (some rows) wallet g)
        (collect_blues-Memᴰ rows wallet h r hashes full known m)
    where
      go :
          (b : Bool) (o : Option MinedBlue)
          → let rest = collect_blues to_lower extract_worker block (some rows) wallet hashes in
            let mb : MinedBlue = record { hash = h; worker = r.worker_name } in
            Memᴰ mb rest → Memᴰ mb (if b then elim o [ none ↦ rest | some q ↦ q ∷ rest ] else rest)
      go true none later = later
      go true (some q) later = Memᴰ.tail later
      go false o later = later

  -- With a table of blocks and no filter, each blue of a chain block's merge set that has a row in
  -- the table shares in the amount that the coinbase pays an address, for whatever wallet the row
  -- was recorded: it gets an equal whole part, or that with the remainder. Its hash is 64 long, and
  -- its row has an accepting block that is not NULL.
  pub recorded_block_shares :
      (sanitize : Bytes → Bytes) (rows : Table) (b : Block) (v : VerboseData) (addr h : Bytes)
      (r : BlockRecord) (amount : ℕ)
      → b.verbose_data ≡ some v
      → v.is_chain_block ≡ true
      → coinbase_sum_to_address to_lower b addr ≡ (true, amount)
      → amount ≢ 0
      → Memᴰ h v.merge_set_blues_hashes
      → length h ≡ 64
      → get_block h rows ≡ found r
      → let find_mined : List Bytes → List MinedBlue = λ hashes.
        find_mined_blues_from_merge_set to_lower extract_worker block hashes addr (some rows) in
        let n = length (find_mined v.merge_set_blues_hashes) in
        HasShare h r.worker_name
          (amount / n)
          (amount % n)
          (process_paying_block sanitize to_lower find_mined (some b) addr [])
  unfolding process_paying_block find_mined_blues_from_merge_set
  recorded_block_shares sanitize rows b v addr h r amount described chain pays nonzero blue full
        known =
      let some_amount : nat_eq amount 0 ≡ false = ground (arith, nat_eq_iff amount 0) in
      let paid_at : ℕ = elim b.header [ none ↦ 0 | some header ↦ header.timestamp ] in
      let row : MinedBlue → ℕ → RewardsRow = λ mb atoms. record {
        mined_blue_hash = mb.hash;
        worker = mb.worker;
        reward_atoms = atoms;
        paid_by_block_hash = v.hash;
        paid_blue_score = v.blue_score;
        paid_at_ms = paid_at;
      } in
      rw (described, pays, chain, some_amount)
        (split_reward-HasShare sanitize row (λ mb n. refl) (λ mb n. refl) (λ mb n. refl) amount
          (record { hash = h; worker = r.worker_name }) _
          (sort_by_hash-Memᴰ _ _
            (collect_blues-Memᴰ rows addr h r v.merge_set_blues_hashes full known blue)))
