-- ===== src/Vardiff/Window.antt =====
-- `startVardiffThread` of src/htnstratum/share_handler.go: the index of a worker's window.
use htn_stratum_bridge.Prelude.{
  ℕ, zero, suc, ◌+◌, ◌≤◌, ◌-◌, ◌≡◌, refl, ap, ◌∙◌, inl, inr, Bool, true, false, Option, none, some,
  List, [], ◌∷◌, Bytes, Map, drop, pos, nat_eq, ltb_ℤ, int_inc, Bool-cases, arith, if◌then◌else◌,
}
use htn_stratum_bridge.Share.Stats.{WorkStats, update_rolling_counters}
use htn_stratum_bridge.Share.Tally.{
  Consensus, Tally, counts_nothing, counts_stale, counts_duplicate, counts_invalid, counts_bad_pow,
  counts_share, tally_worker,
}
use htn_stratum_bridge.Pow.Floats.{FloatOps, one}
use htn_stratum_bridge.Vardiff.{
  at, windows, tolerances, update_var_diff, start_if_unset, start_var_diff, check_cleared, Reading,
  wanted, check_current, check_window, check_worker, check_since, check_rate, next_worker,
  check_rates,
}
use htn_stratum_bridge.Vardiff.Stats.{AllWorkers}
use htn_stratum_bridge.Vardiff.Reached.{Reached, checks, IsKept, Reached-AllWorkers}

-- The window's index is at most `k`.
pub record Within {F : Type 0} (k : ℕ) (w : WorkStats F) : Type 0 where
  pub index : ℕ
  pub window : w.var_diff_window ≡ pos index
  pub bound : index ≤ k

within :
    {F : Type 0} {k : ℕ} {w : WorkStats F} (n : ℕ) → w.var_diff_window ≡ pos n → n ≤ k → Within k w
within n e le = record { index = n; window = e; bound = le }

module _ {F : Type 0} where
  update-Within : (k : ℕ) (d : F) (w : WorkStats F) → Within k (update_var_diff d w)
  unfolding update_var_diff
  update-Within k d w = within 0 refl (ground arith)

  start-Within : (k now : ℕ) (w : WorkStats F) → Within k w → Within k (start_var_diff now w)
  unfolding start_var_diff
  start-Within k now w p = go w.var_diff_start_time
    where
      go : (start : Option ℕ) → Within k (start_if_unset now w start)
      go none = within p.index p.window p.bound
      go (some t) = p

  counts-Within :
      (zero_f : F) (add : F → F → F) (t : Tally) (now : ℕ) (x : F) (k : ℕ) (w : WorkStats F)
      → Within k w
      → Within k (tally_worker zero_f add t now x w)
  unfolding tally_worker update_rolling_counters
  counts-Within zero_f add counts_nothing now x k w p = within p.index p.window p.bound
  counts-Within zero_f add counts_stale now x k w p = within p.index p.window p.bound
  counts-Within zero_f add counts_duplicate now x k w p = within p.index p.window p.bound
  counts-Within zero_f add counts_invalid now x k w p = within p.index p.window p.bound
  counts-Within zero_f add counts_bad_pow now x k w p = within p.index p.window p.bound
  counts-Within zero_f add counts_share now x k w p = within p.index p.window p.bound

  either-Within :
      (k : ℕ) (b : Bool) (v w : WorkStats F)
      → Within k v
      → Within k w
      → Within k (if b then v else w)
  either-Within k true v w p q = p
  either-Within k false v w p q = q

module _ {F : Type 0} (fl : FloatOps F) where
  check_cleared-Within :
      (k : ℕ) (off diff : F) (i : ℕ) (more : List F) (w : WorkStats F)
      → Within k w
      → Within k (check_cleared fl off diff i more w).1
  unfolding check_cleared
  check_cleared-Within k off diff i [] w p = p
  check_cleared-Within k off diff i (tolerance ∷ more) w p =
      go (ltb_ℤ (pos i) w.var_diff_window) (fl.le tolerance off)
        (check_cleared-Within k off diff (i + 1) more w p)
    where
      go :
          (before breached : Bool)
          → Within k (check_cleared fl off diff (i + 1) more w).1
          → Within k
              (if before
                then (if breached
                    then (i, update_var_diff diff w)
                    else check_cleared fl off diff (i + 1) more w)
                else (i, w)).1
      go true true rest = update-Within k diff w
      go true false rest = rest
      go false b rest = p

  -- The tables at an index in their range.
  at_window :
      (n : ℕ)
      → n ≤ 6
      → (window : ℕ) × (tolerance : F) × (at (pos n) windows ≡ some window)
        × (at (pos n) (tolerances fl) ≡ some tolerance)
        × (nat_eq window 0 ≡ false → n ≤ 5)
  at_window zero le = (_, _, refl, refl, λ _. ground arith)
  at_window (suc zero) le = (_, _, refl, refl, λ _. ground arith)
  at_window (suc (suc zero)) le = (_, _, refl, refl, λ _. ground arith)
  at_window (suc (suc (suc zero))) le = (_, _, refl, refl, λ _. ground arith)
  at_window (suc (suc (suc (suc zero)))) le = (_, _, refl, refl, λ _. ground arith)
  at_window (suc (suc (suc (suc (suc zero))))) le = (_, _, refl, refl, λ _. ground arith)
  at_window (suc (suc (suc (suc (suc (suc zero)))))) le =
      (_, _, refl, refl, λ no. absurd (ground arith))
  at_window (suc (suc (suc (suc (suc (suc (suc n))))))) le = absurd (omega arith)

module _ {F : Type 0} (fl : FloatOps F) (expected : ℕ) where
  raise-Within : (w : WorkStats F) → Within 5 w → Within 6 w
  raise-Within w p = within p.index p.window (omega (arith, p.bound))

  inc-Within :
      (w : WorkStats F)
      → Within 5 w
      → Within 6 (record w { var_diff_window = int_inc w.var_diff_window })
  unfolding int_inc
  inc-Within w p =
      within (p.index + 1) (rw p.window (ground (arith, p.bound))) (omega (arith, p.bound))

  check_current-Within :
      (r : Reading fl expected) (window : ℕ) (tolerance : F) (w : WorkStats F)
      → Within 5 w
      → Within 6 (check_current fl expected r window tolerance w)
  unfolding check_current
  check_current-Within r window tolerance w p =
      go (fl.le (fl.mul (wanted fl expected window) (fl.add (one fl) tolerance)) r.shares)
        (fl.le (fl.of_nat window) r.duration)
        (fl.le r.shares (fl.mul (wanted fl expected window) (fl.sub (one fl) tolerance)))
    where
      go :
          (over passed under : Bool)
          → Within 6 (
              if over
              then update_var_diff (fl.mul r.diff r.ratio) w
              else if passed
              then (if under
                  then update_var_diff (fl.mul r.diff (fl.max r.ratio (fl.decimal 1 1))) w
                  else record w { var_diff_window = int_inc w.var_diff_window })
              else w)
      go true passed under = update-Within 6 _ w
      go false true true = update-Within 6 _ w
      go false true false = inc-Within w p
      go false false under = raise-Within w p

  check_window-Within :
      (r : Reading fl expected) (window : ℕ) (tolerance : F) (w : WorkStats F)
      → Within 5 w
      → Within 6 (check_window fl expected r window tolerance w)
  check_window-Within r window tolerance w p =
      let cleared =
        check_cleared-Within fl 5 r.off (fl.mul r.diff r.ratio) 1 (drop 1 (tolerances fl)) w p in
      either-Within 6 _ _ _ (raise-Within _ cleared)
        (check_current-Within r window tolerance _ cleared)

  -- A worker whose index is in range is checked, and its index stays in range.
  pub check_rate-Within :
      (now : ℕ) (w : WorkStats F)
      → Within 6 w
      → (w' : WorkStats F) × (check_rate fl expected now w ≡ some w') × Within 6 w'
  unfolding check_rate
  check_rate-Within now w p = go w.var_diff_start_time
    where
      by_table :
          (elapsed window : ℕ) (tolerance : F)
          → (nat_eq window 0 ≡ false → p.index ≤ 5)
          → (w' : WorkStats F) × (check_worker fl expected elapsed w (some window) (some tolerance)
              ≡ some w')
            × Within 6 w'
      by_table elapsed window tolerance below = (
        _,
        refl,
        elim (Bool-cases (nat_eq window 0)) [
          | inl final ↦ rw final (either-Within 6 _ _ _ (update-Within 6 _ w) p)
          | inr early ↦
              rw early
                (check_window-Within _ window tolerance w (within p.index p.window (below early)))
        ],
      )

      go :
          (start : Option ℕ)
          → (w' : WorkStats F) × (check_since fl expected now w start ≡ some w') × Within 6 w'
      go none = (w, refl, p)
      go (some t) =
          let (window, tolerance, ew, et, below) = at_window fl p.index p.bound in
          let (w', e, q) = by_table (now - t) window tolerance below in
          (
            w',
            ap (λ i. check_worker fl expected (now - t) w (at i windows) (at i (tolerances fl)))
                  p.window
                ∙ ap
                    (λ a. check_worker fl expected (now - t) w a (at (pos p.index) (tolerances fl)))
                    ew
                ∙ ap (λ b. check_worker fl expected (now - t) w (some window) b) et
                ∙ e,
            q,
          )

module _ {F D : Type 0} (fl : FloatOps F) (expected : ℕ) (consensus : Consensus D) where
  Within-kept : IsKept fl expected consensus (Within 6)
  Within-kept = record {
    fresh = λ now wallet name. within 0 refl (ground arith);
    counts = λ t now x w p. counts-Within (fl.of_nat 0) fl.add t now x 6 w p;
    updates = λ d w p. update-Within 6 d w;
    begins = λ now w p. start-Within 6 now w p;
    checks = λ now w w' p e.
        let (v, there, q) = check_rate-Within fl expected now w p in
        let same : v ≡ w' = ground (arith, e, there) in rw (← same) q;
  }

  check_rates-all :
      (now : ℕ) (stats : Map Bytes (WorkStats F))
      → AllWorkers (Within 6) stats
      → (stats' : Map Bytes (WorkStats F)) × (check_rates fl expected now stats ≡ some stats')
  unfolding check_rates
  check_rates-all now [] all = ([], refl)
  check_rates-all now ((key, w) ∷ stats) all =
      let (w', first, p) = check_rate-Within fl expected now w all.0 in
      let (stats', rest) = check_rates-all now stats all.1 in
      (
        (key, w') ∷ stats',
        ap (λ a. next_worker key a (check_rates fl expected now stats)) first
            ∙ ap (next_worker key (some w')) rest,
      )

  -- Whatever the miners and the client handler did before, a round of the thread returns: the index
  -- of a worker's window is within the tables.
  pub check_rates_return :
      (now : ℕ) (stats : Map Bytes (WorkStats F))
      → Reached fl expected consensus stats
      → (stats' : Map Bytes (WorkStats F)) × (check_rates fl expected now stats ≡ some stats')
        × AllWorkers (Within 6) stats'
  check_rates_return now stats r =
      let (stats', e) =
        check_rates-all now stats
          (Reached-AllWorkers fl expected consensus (Within 6) Within-kept stats r) in
      (
        stats',
        e,
        Reached-AllWorkers fl expected consensus (Within 6) Within-kept stats'
            (checks now stats stats' r e),
      )
