-- ===== src/Mining/Ring.antt =====
-- src/htnstratum/mining_state.go: how long a job id finds its job, the jobs being a ring of
-- `max_jobs` slots.
use htn_stratum_bridge.Prelude.{
  ℕ, ◌+◌, ◌≤◌, ◌<◌, ◌≡◌, ◌≢◌, refl, ap, ◌∙◌, Bool, Option, some, List, [], ◌∷◌, length,
  lookup-insert, lookup-insert_self, ==-ne, ℤ, pos, max_int, int_inc, int_rem, int_Eq, arith,
}
use htn_stratum_bridge.Rpc.{Block}
use htn_stratum_bridge.Mining.{MiningState, max_jobs, add_job, get_job}

int_inc_below : (n : ℕ) → n < max_int → int_inc (pos n) ≡ pos (n + 1)
unfolding int_inc
int_inc_below n h = ground arith

slot_ne :
    (n id : ℕ)
    → id ≤ n
    → n + 1 < id + max_jobs
    → int_rem (pos (n + 1)) max_jobs ≢ int_rem (pos id) max_jobs
unfolding int_rem
slot_ne n id h k = ground arith

slot_wraps : (id : ℕ) → int_rem (pos (id + max_jobs)) max_jobs ≡ int_rem (pos id) max_jobs
unfolding int_rem
slot_wraps id = ground arith

module _ {F : Type 0} where
  -- The jobs of a list, added one after another.
  unfoldable pub add_jobs : List (Option Block × Bool) → MiningState F → MiningState F
  add_jobs [] s = s
  add_jobs ((job, is_fee) ∷ js) s = add_jobs js (add_job job is_fee s).0

  pub get_job-add_job :
      (job : Option Block) (is_fee : Bool) (s : MiningState F)
      → let (s', idx) = add_job job is_fee s in get_job idx s' ≡ some job
  unfolding add_job get_job
  get_job-add_job job is_fee s = lookup-insert_self _ job s.jobs

  pub get_job-add_job_ne :
      (id : ℤ) (job : Option Block) (is_fee : Bool) (s : MiningState F)
      → int_rem (int_inc s.job_counter) max_jobs ≢ int_rem id max_jobs
      → get_job id (add_job job is_fee s).0 ≡ get_job id s
  unfolding add_job get_job
  get_job-add_job_ne id job is_fee s h =
      rw (lookup-insert, ==-ne (int_rem (int_inc s.job_counter) max_jobs) (int_rem id max_jobs) h)

  job_counter-add_job :
      (job : Option Block) (is_fee : Bool) (s : MiningState F)
      → (add_job job is_fee s).0.job_counter ≡ int_inc s.job_counter
  unfolding add_job
  job_counter-add_job job is_fee s = refl

  get_job-add_jobs :
      (js : List (Option Block × Bool)) (s : MiningState F) (n id : ℕ) (job : Option Block)
      → s.job_counter ≡ pos n
      → get_job (pos id) s ≡ some job
      → id ≤ n
      → n + length js < id + max_jobs
      → n + length js ≤ max_int
      → get_job (pos id) (add_jobs js s) ≡ some job
  unfolding add_jobs
  get_job-add_jobs [] s n id job c g h k m = g
  get_job-add_jobs ((j, f) ∷ js) s n id job c g h k m =
      let next : int_inc s.job_counter ≡ pos (n + 1) = rw c (int_inc_below n (omega arith)) in
      get_job-add_jobs js (add_job j f s).0 (n + 1) id job (job_counter-add_job j f s ∙ next)
        (get_job-add_job_ne (pos id) j f s (rw next (slot_ne n id h (omega arith))) ∙ g)
        (omega arith) (omega arith) (omega arith)

  index-add_job :
      (job : Option Block) (is_fee : Bool) (s : MiningState F)
      → (add_job job is_fee s).1 ≡ int_inc s.job_counter
  unfolding add_job
  index-add_job job is_fee s = refl

  -- From a counter that is not negative, the id that `AddJob` returns finds its job through any 31
  -- or fewer further calls of `AddJob`, as long as the 64-bit counter does not wrap.
  pub retention :
      (job : Option Block) (is_fee : Bool) (js : List (Option Block × Bool)) (s : MiningState F)
      (n : ℕ)
      → s.job_counter ≡ pos n
      → length js < max_jobs
      → n + 1 + length js ≤ max_int
      → let (s', idx) = add_job job is_fee s in get_job idx (add_jobs js s') ≡ some job
  retention job is_fee js s n c h m =
      let next : int_inc s.job_counter ≡ pos (n + 1) = rw c (int_inc_below n (omega arith)) in
      let idx : (add_job job is_fee s).1 ≡ pos (n + 1) = index-add_job job is_fee s ∙ next in
      rw idx (
        get_job-add_jobs js (add_job job is_fee s).0 (n + 1) (n + 1) job
          (job_counter-add_job job is_fee s ∙ next) (rw idx at (get_job-add_job job is_fee s))
          (omega arith) (omega arith) (omega arith))

  job_counter-add_jobs :
      (js : List (Option Block × Bool)) (s : MiningState F) (n : ℕ)
      → s.job_counter ≡ pos n
      → n + length js ≤ max_int
      → (add_jobs js s).job_counter ≡ pos (n + length js)
  unfolding add_jobs
  job_counter-add_jobs [] s n c h = c ∙ ap pos (omega arith)
  job_counter-add_jobs ((j, f) ∷ js) s n c h =
      job_counter-add_jobs js (add_job j f s).0 (n + 1)
        (job_counter-add_job j f s ∙ rw c (int_inc_below n (omega arith))) (omega arith)
      ∙ ap pos (omega arith)

  get_job-aliases :
      (id : ℕ) (s : MiningState F) → get_job (pos id) s ≡ get_job (pos (id + max_jobs)) s
  unfolding get_job
  get_job-aliases id s = rw slot_wraps

  -- The 32nd call of `AddJob` after the one that returned an id takes the id over: `GetJob` then
  -- answers the old id with the newest block, and reports that the job exists.
  pub takeover :
      (job newest : Option Block) (is_fee newest_is_fee : Bool) (js : List (Option Block × Bool))
      (s : MiningState F) (n : ℕ)
      → s.job_counter ≡ pos n
      → length js + 1 ≡ max_jobs
      → n + 1 + max_jobs ≤ max_int
      → let (s', idx) = add_job job is_fee s in
        get_job idx (add_job newest newest_is_fee (add_jobs js s')).0 ≡ some newest
  takeover job newest is_fee newest_is_fee js s n c h m =
      let s' : MiningState F = (add_job job is_fee s).0 in
      let next : int_inc s.job_counter ≡ pos (n + 1) = rw c (int_inc_below n (omega arith)) in
      let idx : (add_job job is_fee s).1 ≡ pos (n + 1) = index-add_job job is_fee s ∙ next in
      let last : (add_jobs js s').job_counter ≡ pos (n + 1 + length js) =
        job_counter-add_jobs js s' (n + 1) (job_counter-add_job job is_fee s ∙ next)
          (omega arith) in
      let idx' : (add_job newest newest_is_fee (add_jobs js s')).1 ≡ pos (n + 1 + max_jobs) =
        index-add_job newest newest_is_fee (add_jobs js s')
        ∙ rw last (int_inc_below (n + 1 + length js) (omega arith) ∙ ap pos (omega arith)) in
      rw idx (
        get_job-aliases (n + 1) (add_job newest newest_is_fee (add_jobs js s')).0
        ∙ (rw idx' at (get_job-add_job newest newest_is_fee (add_jobs js s'))))
