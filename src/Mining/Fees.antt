-- ===== src/Mining/Fees.antt =====
-- src/htnstratum/mining_state.go: which blocks count as fee jobs. `FeeJobs` is pruned as slots of
-- the ring are reused, so that it never outlives the blocks it speaks of.
use htn_stratum_bridge.Prelude.{
  ◌≡◌, refl, ◌∙◌, ap, inl, inr, Bool, true, false, ◌&&◌, Option, none, some, Bytes, Map, lookup,
  lookup-insert, lookup-delete, bytes_eq_iff, ◌==◌, ==-refl, ==-eq, ℤ, int_inc, int_rem, int_Eq,
  bytes_Eq, if◌then◌else◌, Option-cases, arith,
}
use htn_stratum_bridge.Rpc.{Block, verbose_hash}
use htn_stratum_bridge.Mining.{
  MiningState, max_jobs, job_at, flag, forget, mark, add_job, is_fee_job,
}

abbrev pub hash_is : Option Bytes → Bytes → Bool
hash_is none h = false
hash_is (some g) h = g == h

pub lookup-forget :
    (o : Option Bytes) (h : Bytes) (m : Map Bytes Bool)
    → lookup h (forget o m) ≡ (if hash_is o h then none else lookup h m)
lookup-forget none h m = refl
lookup-forget (some g) h m = lookup-delete g h m

-- The `else` branch of `AddJob`'s last test deletes only what is not there.
lookup-mark :
    (o : Option Bytes) (is_fee : Bool) (h : Bytes) (m : Map Bytes Bool)
    → lookup h (mark o is_fee m) ≡ (if hash_is o h && is_fee then some true else lookup h m)
lookup-mark none is_fee h m = refl
lookup-mark (some g) true h m = lookup-insert g h true m ∙ ground arith
lookup-mark (some g) false h m = elim (Option-cases (lookup g m)) [
  | inl missing ↦ ground (arith, lookup-delete g h m, bytes_eq_iff g h)
  | inr (v, found) ↦ ground arith
]

pub hash_is-some : (o : Option Bytes) (h : Bytes) → hash_is o h ≡ true → o ≡ some h
hash_is-some none h e = cc
hash_is-some (some g) h e = ap some (==-eq g h e)

pub some-hash_is : (o : Option Bytes) (h : Bytes) → o ≡ some h → hash_is o h ≡ true
some-hash_is o h e = rw e (==-refl h)

module _ {F : Type 0} where
  -- The hash of the block in a slot of the ring.
  abbrev pub hash_at : ℤ → MiningState F → Option Bytes
  hash_at slot s = verbose_hash (job_at slot s.jobs)

  -- The slot that the next `AddJob` writes.
  abbrev pub next_slot : MiningState F → ℤ
  next_slot s = int_rem (int_inc s.job_counter) max_jobs

  is_fee_job-lookup :
      (block : Option Block) (s : MiningState F) (h : Bytes)
      → verbose_hash block ≡ some h
      → is_fee_job block s ≡ flag (lookup h s.fee_jobs)
  unfolding is_fee_job
  is_fee_job-lookup block s h e = rw (e, is_fee_job)

  pub lookup-add_job :
      (job : Option Block) (is_fee : Bool) (s : MiningState F) (h : Bytes)
      → lookup h (add_job job is_fee s).0.fee_jobs ≡ (
          if hash_is (verbose_hash job) h && is_fee
          then some true
          else if hash_is (hash_at (next_slot s) s) h
          then none
          else lookup h s.fee_jobs)
  unfolding add_job
  lookup-add_job job is_fee s h =
      lookup-mark (verbose_hash job) is_fee h (forget (hash_at (next_slot s) s) s.fee_jobs)
      ∙ rw (lookup-forget (hash_at (next_slot s) s) h s.fee_jobs)

  -- After `AddJob` a block counts as a fee job if its hash is that of the new job, added as one;
  -- else not if its hash is that of the block that the new job replaced; else as before.
  pub is_fee_job-add_job :
      (job block : Option Block) (is_fee : Bool) (s : MiningState F) (h : Bytes)
      → verbose_hash block ≡ some h
      → is_fee_job block (add_job job is_fee s).0 ≡ (
          if hash_is (verbose_hash job) h && is_fee
          then true
          else if hash_is (hash_at (next_slot s) s) h
          then false
          else is_fee_job block s)
  is_fee_job-add_job job block is_fee s h e =
      rw
        (
          is_fee_job-lookup block (add_job job is_fee s).0 h e,
          is_fee_job-lookup block s h e,
          lookup-add_job job is_fee s h,
        )
        (split (hash_is (verbose_hash job) h && is_fee) (hash_is (hash_at (next_slot s) s) h))
    where
      split :
          (a b : Bool)
          → flag (if a then some true else if b then none else lookup h s.fee_jobs)
            ≡ (if a then true else if b then false else flag (lookup h s.fee_jobs))
      split true b = refl
      split false true = refl
      split false false = refl
