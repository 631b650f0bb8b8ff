-- ===== src/Mining.antt =====
-- src/htnstratum/mining_state.go: the ring of the last jobs sent to a miner, and the hashes of
-- those that pay the bridge. Each method is one step: it holds `JobLock`
-- throughout, but for `AddJob`, which raises and reads the counter before it locks.
pub mod Ring
pub mod Fees
pub mod Tracked
mod Tests
use htn_stratum_bridge.Prelude.{
  ℕ, Bool, true, false, Option, none, some, Bytes, Map, lookup, insert, delete, join, [], ℤ, pos,
  int_inc, int_rem, int_Eq, bytes_Eq,
}
use htn_stratum_bridge.Rpc.{Block, verbose_hash}

abbrev pub max_jobs : ℕ
max_jobs = 32

-- `hoosatDiff`: the three forms of a difficulty, over a type `F` of floats.
pub record Diff (F : Type 0) : Type 0 where
  pub hash_value : F
  pub diff_value : F
  pub target_value : ℤ

pub record MiningState (F : Type 0) : Type 0 where
  pub jobs : Map ℤ (Option Block)
  pub fee_jobs : Map Bytes Bool
  pub job_counter : ℤ
  pub big_diff : ℕ
  pub initialized : Bool
  pub use_big_job : Bool
  pub connect_time : ℕ
  pub stratum_diff : Option (Diff F)

-- `ms.Jobs[k]`, which is nil where the key is missing.
abbrev pub job_at : ℤ → Map ℤ (Option Block) → Option Block
job_at k jobs = join (lookup k jobs)

-- `ms.FeeJobs[hash]`, which is false where the key is missing.
abbrev pub flag : Option Bool → Bool
flag none = false
flag (some fee) = fee

-- `delete(ms.FeeJobs, old.VerboseData.Hash)`, where there is such a hash.
abbrev pub forget : Option Bytes → Map Bytes Bool → Map Bytes Bool
forget none fees = fees
forget (some hash) fees = delete hash fees

-- The last `if` of `AddJob`.
abbrev pub mark : Option Bytes → Bool → Map Bytes Bool → Map Bytes Bool
mark none is_fee fees = fees
mark (some hash) true fees = insert hash true fees
mark (some hash) false fees = elim (lookup hash fees) [ none ↦ delete hash fees | some _ ↦ fees ]

module _ {F : Type 0} where
  -- `MiningStateGenerator`, at the time `now`.
  unfoldable pub mining_state_generator : ℕ → MiningState F
  mining_state_generator now = record {
    jobs = [];
    fee_jobs = [];
    job_counter = pos 0;
    big_diff = 0;
    initialized = false;
    use_big_job = false;
    connect_time = now;
    stratum_diff = none;
  }

  unfoldable pub add_job : Option Block → Bool → MiningState F → MiningState F × ℤ
  add_job job is_fee s =
      let idx = int_inc s.job_counter in
      let slot = int_rem idx max_jobs in
      let kept = forget (verbose_hash (job_at slot s.jobs)) s.fee_jobs in
      (
        record s {
          jobs = insert slot job s.jobs;
          fee_jobs = mark (verbose_hash job) is_fee kept;
          job_counter = idx;
        },
        idx,
      )

  -- `none` where `exists` is false.
  unfoldable pub get_job : ℤ → MiningState F → Option (Option Block)
  get_job id s = lookup (int_rem id max_jobs) s.jobs

  unfoldable pub is_fee_job : Option Block → MiningState F → Bool
  is_fee_job block s = elim (verbose_hash block) [
    | none ↦ false
    | some hash ↦ flag (lookup hash s.fee_jobs)
  ]

  unfoldable pub remove_job : ℤ → MiningState F → MiningState F
  remove_job id s =
      let slot = int_rem id max_jobs in
      record s {
        jobs = delete slot s.jobs;
        fee_jobs = forget (verbose_hash (job_at slot s.jobs)) s.fee_jobs;
      }

  unfoldable pub clear_jobs : MiningState F → MiningState F
  clear_jobs s = record s { jobs = []; fee_jobs = [] }
