-- ===== src/Mining/Tracked.antt =====
-- src/htnstratum/mining_state.go: the invariant of `FeeJobs`, which speaks of blocks in the ring only.
use htn_stratum_bridge.Prelude.{
  ℕ, ◌≡◌, ◌≢◌, refl, ◌∙◌, ap, inl, inr, Bool, true, false, ◌&&◌, Option, none, some, Bytes, lookup,
  delete, lookup-insert, lookup-delete, ◌==◌, ==-refl, ==-eq, ℤ, int_rem, int_Eq, bytes_Eq,
  if◌then◌else◌, Bool-cases, join, arith,
}
use htn_stratum_bridge.Rpc.{Block, verbose_hash}
use htn_stratum_bridge.Mining.{
  MiningState, max_jobs, mining_state_generator, add_job, remove_job, clear_jobs,
}
use htn_stratum_bridge.Mining.Fees.{
  hash_is, lookup-forget, hash_is-some, some-hash_is, hash_at, next_slot, lookup-add_job,
}

module _ {F : Type 0} where
  -- Each hash in `FeeJobs` is marked `true`, and is that of a block in the ring.
  pub record IsTracked (s : MiningState F) : Type 0 where
    pub marked : (h : Bytes) → lookup h s.fee_jobs ≢ none → lookup h s.fee_jobs ≡ some true
    pub held : (h : Bytes) → lookup h s.fee_jobs ≢ none → (slot : ℤ) × (hash_at slot s ≡ some h)

  hash_at-add_job :
      (job : Option Block) (is_fee : Bool) (s : MiningState F) (slot : ℤ)
      → hash_at slot (add_job job is_fee s).0
        ≡ (if next_slot s == slot then verbose_hash job else hash_at slot s)
  unfolding add_job
  hash_at-add_job job is_fee s slot =
      ap (λ o. verbose_hash (join o)) (lookup-insert (next_slot s) slot job s.jobs)
      ∙ split (next_slot s == slot)
    where
      split :
          (b : Bool)
          → verbose_hash (join (if b then some job else lookup slot s.jobs))
            ≡ (if b then verbose_hash job else hash_at slot s)
      split true = refl
      split false = refl

  -- A hash that stays in `FeeJobs` was there before, and is not that of the replaced block.
  add_job-kept :
      (job : Option Block) (is_fee : Bool) (s : MiningState F) (h : Bytes)
      → lookup h (add_job job is_fee s).0.fee_jobs ≢ none
      → (hash_is (verbose_hash job) h && is_fee) ≡ false
      → (hash_is (hash_at (next_slot s) s) h ≡ false) × (lookup h s.fee_jobs ≢ none)
  add_job-kept job is_fee s h present other = ground (arith, lookup-add_job job is_fee s h)

  add_job-slot :
      (job : Option Block) (s : MiningState F) (h : Bytes) (slot : ℤ)
      → hash_is (hash_at (next_slot s) s) h ≡ false
      → hash_at slot s ≡ some h
      → (if next_slot s == slot then verbose_hash job else hash_at slot s) ≡ some h
  add_job-slot job s h slot replaced e = elim (Bool-cases (next_slot s == slot)) [
    | inl same ↦
        let here : hash_is (hash_at (next_slot s) s) h ≡ true =
          some-hash_is (hash_at (next_slot s) s) h (rw (==-eq (next_slot s) slot same) e) in
        cc
    | inr other ↦ rw other e
  ]

  add_job-held :
      (job : Option Block) (is_fee : Bool) (s : MiningState F)
      → IsTracked s
      → (h : Bytes) → lookup h (add_job job is_fee s).0.fee_jobs ≢ none
      → (slot : ℤ) × (hash_at slot (add_job job is_fee s).0 ≡ some h)
  add_job-held job is_fee s t h present =
      elim (Bool-cases (hash_is (verbose_hash job) h && is_fee)) [
        | inl new ↦ (
          next_slot s,
          hash_at-add_job job is_fee s (next_slot s)
              ∙ rw (==-refl (next_slot s)) (hash_is-some (verbose_hash job) h (ground arith)),
        )
        | inr other ↦
            let (replaced, old) = add_job-kept job is_fee s h present other in
            let (slot, e) = t.held h old in
            (slot, hash_at-add_job job is_fee s slot ∙ add_job-slot job s h slot replaced e)
      ]

  pub add_job-IsTracked :
      (job : Option Block) (is_fee : Bool) (s : MiningState F)
      → IsTracked s
      → IsTracked (add_job job is_fee s).0
  add_job-IsTracked job is_fee s t = record {
    marked = λ h present. ground (arith, lookup-add_job job is_fee s h, t.marked h);
    held = add_job-held job is_fee s t;
  }

  lookup-remove_job :
      (id : ℤ) (s : MiningState F) (h : Bytes)
      → lookup h (remove_job id s).fee_jobs
        ≡ (if hash_is (hash_at (int_rem id max_jobs) s) h then none else lookup h s.fee_jobs)
  unfolding remove_job
  lookup-remove_job id s h = lookup-forget (hash_at (int_rem id max_jobs) s) h s.fee_jobs

  hash_at-remove_job :
      (id : ℤ) (s : MiningState F) (slot : ℤ) (h : Bytes)
      → hash_is (hash_at (int_rem id max_jobs) s) h ≡ false
      → hash_at slot s ≡ some h
      → hash_at slot (remove_job id s) ≡ some h
  unfolding remove_job
  hash_at-remove_job id s slot h removed e = elim (Bool-cases (int_rem id max_jobs == slot)) [
    | inl same ↦
        let here : hash_is (hash_at (int_rem id max_jobs) s) h ≡ true =
          some-hash_is (hash_at (int_rem id max_jobs) s) h
            (rw (==-eq (int_rem id max_jobs) slot same) e) in
        cc
    | inr other ↦
        let kept : lookup slot (delete (int_rem id max_jobs) s.jobs) ≡ lookup slot s.jobs =
          lookup-delete (int_rem id max_jobs) slot s.jobs ∙ rw other in
        ap (λ o. verbose_hash (join o)) kept ∙ e
  ]

  remove_job-kept :
      (id : ℤ) (s : MiningState F) (h : Bytes)
      → lookup h (remove_job id s).fee_jobs ≢ none
      → (hash_is (hash_at (int_rem id max_jobs) s) h ≡ false) × (lookup h s.fee_jobs ≢ none)
  remove_job-kept id s h present = ground (arith, lookup-remove_job id s h)

  pub remove_job-IsTracked :
      (id : ℤ) (s : MiningState F) → IsTracked s → IsTracked (remove_job id s)
  remove_job-IsTracked id s t = record {
    marked = λ h present. ground (arith, lookup-remove_job id s h, t.marked h);
    held = λ h present.
        let (removed, old) = remove_job-kept id s h present in
        let (slot, e) = t.held h old in (slot, hash_at-remove_job id s slot h removed e);
  }

  clear_jobs-IsTracked : (s : MiningState F) → IsTracked (clear_jobs s)
  unfolding clear_jobs lookup
  clear_jobs-IsTracked s = record {
    marked = λ h present. absurd (present refl);
    held = λ h present. absurd (present refl);
  }

  generator-IsTracked : (now : ℕ) → IsTracked (mining_state_generator {F = F} now)
  unfolding mining_state_generator lookup
  generator-IsTracked now = record {
    marked = λ h present. absurd (present refl);
    held = λ h present. absurd (present refl);
  }

  -- What can happen to the state of a miner's jobs.
  pub data Step : MiningState F → MiningState F → Type 0 where
    adds :
        (job : Option Block) (is_fee : Bool) (s : MiningState F) → Step s (add_job job is_fee s).0
    removes : (id : ℤ) (s : MiningState F) → Step s (remove_job id s)
    clears : (s : MiningState F) → Step s (clear_jobs s)

  pub data Reach : MiningState F → Type 0 where
    start : (now : ℕ) → Reach (mining_state_generator now)
    next : {s t : MiningState F} → Reach s → Step s t → Reach t

  Step-IsTracked : {s t : MiningState F} → Step s t → IsTracked s → IsTracked t
  Step-IsTracked (adds job is_fee s) h = add_job-IsTracked job is_fee s h
  Step-IsTracked (removes id s) h = remove_job-IsTracked id s h
  Step-IsTracked (clears s) h = clear_jobs-IsTracked s

  -- Through any sequence of `AddJob`, `RemoveJob` and `ClearJobs` from a new state, each hash in
  -- `FeeJobs` is marked `true` and is that of a block that the ring holds: no entry leaks.
  pub Reach-IsTracked : {s : MiningState F} → Reach s → IsTracked s
  Reach-IsTracked (start now) = generator-IsTracked now
  Reach-IsTracked (next r st) = Step-IsTracked st (Reach-IsTracked r)
