-- ===== src/Vardiff.antt =====
-- The variable difficulty of clients, in src/htnstratum/share_handler.go: the thread that compares a
-- worker's shares with the rate that is expected, and the operations that the client handler
-- calls. Floats are those of src/pow; times are whole
-- seconds, where the code has nanoseconds. The thread does not lock the table of workers; here a round
-- of it is one step.
pub mod Stats
pub mod Reached
pub mod Window
pub mod Starved
mod Tests
use htn_stratum_bridge.Prelude.{
  ℕ, ◌+◌, ◌-◌, ◌*◌, ◌/◌, ◌%◌, ◌^◌, Bool, Option, none, some, List, [], ◌∷◌, Bytes, Map, insert,
  drop, bytes_Eq, nat_eq, get_elem?, ℤ, pos, negsuc, ltb_ℤ, int_inc, if◌then◌else◌,
}
use htn_stratum_bridge.Stratum.{Client}
use htn_stratum_bridge.Share.Stats.{WorkStats, stats_key, get_create_stats}
use htn_stratum_bridge.Pow.Floats.{FloatOps, one}

-- An index into an array; `none` is a panic.
abbrev pub at {ℓ} : {A : Type ℓ} → ℤ → List A → Option A
at (pos n) items = get_elem? items n
at (negsuc n) items = none

-- In minutes; 0 is the final stage.
abbrev pub windows : List ℕ
windows = 1 ∷ 3 ∷ 10 ∷ 30 ∷ 60 ∷ 240 ∷ 0 ∷ []

-- `updateVarDiff`
unfoldable pub update_var_diff : {F : Type 0} → F → WorkStats F → WorkStats F
update_var_diff min_diff w = record w {
  var_diff_start_time = none;
  var_diff_window = pos 0;
  min_diff = min_diff;
}

abbrev pub start_if_unset : {F : Type 0} → ℕ → WorkStats F → Option ℕ → WorkStats F
start_if_unset now w (some start) = w
start_if_unset now w none = record w {
  var_diff_shares_found = pos 0;
  var_diff_start_time = some now;
}

-- `startVarDiff`
unfoldable pub start_var_diff : {F : Type 0} → ℕ → WorkStats F → WorkStats F
start_var_diff now w = start_if_unset now w w.var_diff_start_time

module _ {F : Type 0} (fl : FloatOps F) where
  abbrev pub tolerances : List F
  tolerances =
      one fl
      ∷ fl.decimal 5 1
      ∷ fl.decimal 25 2
      ∷ fl.decimal 15 2
      ∷ fl.decimal 1 1
      ∷ fl.decimal 5 2
      ∷ fl.decimal 5 2
      ∷ []

  -- `Duration.Minutes()`
  abbrev pub minutes : ℕ → F
  minutes elapsed =
      fl.add (fl.of_nat (elapsed / 60)) (fl.div (fl.of_nat (elapsed % 60)) (fl.of_nat 60))

  -- The loop over the windows that are cleared, with the index where it stops. A tolerance that is
  -- breached sets the difficulty.
  unfoldable pub check_cleared : F → F → ℕ → List F → WorkStats F → ℕ × WorkStats F
  unfolding update_var_diff
  check_cleared off diff i [] w = (i, w)
  check_cleared off diff i (tolerance ∷ more) w =
      let rest = check_cleared off diff (i + 1) more w in
      if ltb_ℤ (pos i) w.var_diff_window
      then (if fl.le tolerance off then (i, update_var_diff diff w) else rest)
      else (i, w)

abbrev pub next_worker :
    {F : Type 0}
    → Bytes
    → Option (WorkStats F)
    → Option (Map Bytes (WorkStats F))
    → Option (Map Bytes (WorkStats F))
next_worker key none rest = none
next_worker key (some w) none = none
next_worker key (some w) (some rest) = some ((key, w) ∷ rest)

module _ {F : Type 0} (fl : FloatOps F) (expected : ℕ) where
  -- What the thread reads of a worker before it changes it.
  pub record Reading : Type 0 where
    pub diff : F
    pub shares : F
    pub duration : F
    pub ratio : F
    pub off : F

  abbrev pub read : ℕ → WorkStats F → Reading
  read elapsed w =
      let shares = fl.of_int w.var_diff_shares_found in
      let duration = minutes fl elapsed in
      let ratio = fl.div (fl.div shares duration) (fl.of_nat expected) in
      record {
        diff = w.min_diff;
        shares = shares;
        duration = duration;
        ratio = ratio;
        off = fl.abs (fl.sub (one fl) ratio);
      }

  -- `float64(window*expectedShareRate)`
  abbrev pub wanted : ℕ → F
  wanted window = fl.of_nat (window * expected % 2 ^ 64)

  -- The checks of the current window.
  unfoldable pub check_current : Reading → ℕ → F → WorkStats F → WorkStats F
  unfolding update_var_diff
  check_current r window tolerance w =
      if fl.le (fl.mul (wanted window) (fl.add (one fl) tolerance)) r.shares
      then update_var_diff (fl.mul r.diff r.ratio) w
      else if fl.le (fl.of_nat window) r.duration
      then (if fl.le r.shares (fl.mul (wanted window) (fl.sub (one fl) tolerance))
          then update_var_diff (fl.mul r.diff (fl.max r.ratio (fl.decimal 1 1))) w
          else record w { var_diff_window = int_inc w.var_diff_window })
      else w

  -- The `continue` after the loop tests the window that the loop may have set.
  abbrev pub check_window : Reading → ℕ → F → WorkStats F → WorkStats F
  check_window r window tolerance w =
      let (i, w') = check_cleared fl r.off (fl.mul r.diff r.ratio) 1 (drop 1 (tolerances fl)) w in
      if ltb_ℤ (pos i) w'.var_diff_window then w' else check_current r window tolerance w'

  abbrev pub check_final : Reading → F → WorkStats F → WorkStats F
  check_final r tolerance w =
      if fl.le tolerance r.off then update_var_diff (fl.mul r.diff r.ratio) w else w

  abbrev pub check_worker : ℕ → WorkStats F → Option ℕ → Option F → Option (WorkStats F)
  check_worker elapsed w none tolerance = none
  check_worker elapsed w (some window) none = none
  check_worker elapsed w (some window) (some tolerance) = some (
      if nat_eq window 0
      then check_final (read elapsed w) tolerance w
      else check_window (read elapsed w) window tolerance w)

  abbrev pub check_since : ℕ → WorkStats F → Option ℕ → Option (WorkStats F)
  check_since now w none = some w
  check_since now w (some start) =
      check_worker (now - start) w (at w.var_diff_window windows)
        (at w.var_diff_window (tolerances fl))

  -- A worker's part in a round of `startVardiffThread`; `none` is a panic, which ends the bridge.
  unfoldable pub check_rate : ℕ → WorkStats F → Option (WorkStats F)
  unfolding check_cleared check_current
  check_rate now w = check_since now w w.var_diff_start_time

  -- A round of `startVardiffThread`.
  unfoldable pub check_rates : ℕ → Map Bytes (WorkStats F) → Option (Map Bytes (WorkStats F))
  unfolding check_rate
  check_rates now [] = some []
  check_rates now ((key, w) ∷ stats) = next_worker key (check_rate now w) (check_rates now stats)

module _ {F : Type 0} (fl : FloatOps F) where
  -- `startClientVardiff`
  unfoldable pub start_client_vardiff :
      ℕ → Client → Map Bytes (WorkStats F) → Map Bytes (WorkStats F)
  unfolding start_var_diff
  start_client_vardiff now ctx stats =
      let (created, w) = get_create_stats (fl.of_nat 0) fl.add now ctx stats in
      insert (stats_key ctx) (start_var_diff now w) created

  -- `getClientVardiff`
  unfoldable pub get_client_vardiff :
      ℕ → Client → Map Bytes (WorkStats F) → Map Bytes (WorkStats F) × F
  get_client_vardiff now ctx stats =
      let (created, w) = get_create_stats (fl.of_nat 0) fl.add now ctx stats in
      (created, w.min_diff)

  -- `setClientVardiff`, which returns the previous difficulty.
  unfoldable pub set_client_vardiff :
      ℕ → Client → F → Map Bytes (WorkStats F) → Map Bytes (WorkStats F) × F
  unfolding start_var_diff update_var_diff
  set_client_vardiff now ctx min_diff stats =
      let (created, w) = get_create_stats (fl.of_nat 0) fl.add now ctx stats in
      let updated = update_var_diff (fl.max min_diff (fl.decimal 1 5)) w in
      (insert (stats_key ctx) (start_var_diff now updated) created, w.min_diff)
