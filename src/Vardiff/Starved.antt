-- ===== src/Vardiff/Starved.antt =====
-- `startVardiffThread` of src/htnstratum/share_handler.go, whose counter of shares, VarDiffSharesFound,
-- nothing raises.
use htn_stratum_bridge.Prelude.{
  ℕ, ◌-◌, ◌*◌, ◌%◌, ◌^◌, ◌≤◌, ◌<◌, ◌≡◌, refl, sym, ap, ◌∙◌, Bool, true, false, Option, none, some,
  List, [], ◌∷◌, Bytes, Map, lookup, bytes_Eq, drop, pos, ltb_ℤ, inl, inr, Bool-cases, arith,
  if◌then◌else◌,
}
use htn_stratum_bridge.Share.Stats.{WorkStats, update_rolling_counters}
use htn_stratum_bridge.Share.Tally.{
  Consensus, Tally, counts_nothing, counts_stale, counts_duplicate, counts_invalid, counts_bad_pow,
  counts_share, tally_worker,
}
use htn_stratum_bridge.Pow.Floats.{FloatOps, one}
use htn_stratum_bridge.Vardiff.{
  at, windows, tolerances, minutes, update_var_diff, start_if_unset, start_var_diff, check_cleared,
  Reading, read, wanted, check_current, check_window, check_worker, check_since, check_rate,
}
use htn_stratum_bridge.Vardiff.Stats.{lookup-AllWorkers}
use htn_stratum_bridge.Vardiff.Reached.{Reached, IsKept, Reached-AllWorkers}

-- No share is counted, and the window is the first.
pub record IsStarved {F : Type 0} (w : WorkStats F) : Type 0 where
  pub shares : w.var_diff_shares_found ≡ pos 0
  pub window : w.var_diff_window ≡ pos 0

counts-IsStarved :
    {F : Type 0} (zero_f : F) (add : F → F → F) (t : Tally) (now : ℕ) (x : F) (w : WorkStats F)
    → IsStarved w
    → IsStarved (tally_worker zero_f add t now x w)
unfolding tally_worker update_rolling_counters
counts-IsStarved zero_f add counts_nothing now x w p = p
counts-IsStarved zero_f add counts_stale now x w p = record { shares = p.shares; window = p.window }
counts-IsStarved zero_f add counts_duplicate now x w p = record {
  shares = p.shares;
  window = p.window;
}
counts-IsStarved zero_f add counts_invalid now x w p = record {
  shares = p.shares;
  window = p.window;
}
counts-IsStarved zero_f add counts_bad_pow now x w p = record {
  shares = p.shares;
  window = p.window;
}
counts-IsStarved zero_f add counts_share now x w p = record { shares = p.shares; window = p.window }

start-IsStarved :
    {F : Type 0} (now : ℕ) (w : WorkStats F) → IsStarved w → IsStarved (start_var_diff now w)
unfolding start_var_diff
start-IsStarved now w p = go w.var_diff_start_time
  where
    go : (start : Option ℕ) → IsStarved (start_if_unset now w start)
    go none = record { shares = refl; window = p.window }
    go (some t) = p

-- What the arithmetic of floats is relied on for.
pub record IsFloat {F : Type 0} (fl : FloatOps F) : Type 0 where
  pub of_int-zero : fl.of_int (pos 0) ≡ fl.of_nat 0
  pub one_le : (n : ℕ) → 1 ≤ n → fl.le (one fl) (fl.of_nat n) ≡ true
  pub zero_div : (x : F) → fl.le (one fl) x ≡ true → fl.div (fl.of_nat 0) x ≡ fl.of_nat 0
  pub max_zero : fl.max (fl.of_nat 0) (fl.decimal 1 1) ≡ fl.decimal 1 1
  pub above_zero :
      (n : ℕ)
      → 1 ≤ n
      → fl.le (fl.mul (fl.of_nat n) (fl.add (one fl) (one fl))) (fl.of_nat 0) ≡ false
  pub not_above :
      (n : ℕ) → fl.le (fl.of_nat 0) (fl.mul (fl.of_nat n) (fl.sub (one fl) (one fl))) ≡ true

skip : {A : Type 0} (b : Bool) (x y : A) → b ≡ false → (if b then x else y) ≡ y
skip b x y e = rw e refl

take_it : {A : Type 0} (b : Bool) (x y : A) → b ≡ true → (if b then x else y) ≡ x
take_it b x y e = rw e refl

module _ {F : Type 0} (fl : FloatOps F) where
  -- A worker whose difficulty was sent at least a minute ago gets a tenth of it.
  abbrev pub fall : ℕ → WorkStats F → Option ℕ → WorkStats F
  fall now w none = w
  fall now w (some t) =
      if fl.le (one fl) (minutes fl (now - t))
      then update_var_diff (fl.mul w.min_diff (fl.decimal 1 1)) w
      else w

module _ {F : Type 0} (fl : FloatOps F) (float : IsFloat fl) (expected : ℕ)
    (positive : 1 ≤ expected) (small : expected < 2 ^ 64) where
  no_ratio :
      (x : F)
      → fl.le (one fl) x ≡ true
      → fl.max (fl.div (fl.div (fl.of_int (pos 0)) x) (fl.of_nat expected)) (fl.decimal 1 1)
        ≡ fl.decimal 1 1
  no_ratio x long =
      rw
        (
          float.of_int-zero,
          float.zero_div x long,
          float.zero_div (fl.of_nat expected) (float.one_le expected positive),
        )
        float.max_zero

  not_cleared :
      (off diff : F) (more : List F) (w : WorkStats F)
      → w.var_diff_window ≡ pos 0
      → check_cleared fl off diff 1 more w ≡ (1, w)
  unfolding check_cleared
  not_cleared off diff [] w e = refl
  not_cleared off diff (tolerance ∷ more) w e = skip _ _ _ (ap (ltb_ℤ (pos 1)) e)

  first_window :
      (r : Reading fl expected) (w : WorkStats F)
      → w.var_diff_window ≡ pos 0
      → check_window fl expected r 1 (one fl) w ≡ check_current fl expected r 1 (one fl) w
  first_window r w e =
      ap
        (λ c.
          if ltb_ℤ (pos c.0) c.1.var_diff_window
          then c.1
          else check_current fl expected r 1 (one fl) c.1)
        (not_cleared r.off (fl.mul r.diff r.ratio) (drop 1 (tolerances fl)) w e)
      ∙ skip _ _ _ (ap (ltb_ℤ (pos 1)) e)

  wanted_one : wanted fl expected 1 ≡ fl.of_nat expected
  wanted_one = ap fl.of_nat (ground (arith, small))

  check_current-fall :
      (now t : ℕ) (w : WorkStats F)
      → w.var_diff_shares_found ≡ pos 0
      → check_current fl expected (read fl expected (now - t) w) 1 (one fl) w
        ≡ fall fl now w (some t)
  unfolding check_current
  check_current-fall now t w e =
      skip _ _ _ over ∙ elim (Bool-cases (fl.le (one fl) (minutes fl (now - t)))) [
        | inl long ↦
            take_it _ _ _ long
            ∙ take_it _ _ _ under
            ∙ ap (λ m. update_var_diff (fl.mul w.min_diff m) w)
                (ap
                    (λ s.
                      fl.max
                        (fl.div (fl.div (fl.of_int s) (minutes fl (now - t))) (fl.of_nat expected))
                        (fl.decimal 1 1))
                    e
                  ∙ no_ratio (minutes fl (now - t)) long)
            ∙ sym (take_it _ _ _ long)
        | inr short ↦ skip _ _ _ short ∙ sym (skip _ _ _ short)
      ]
    where
      none_found : fl.of_int w.var_diff_shares_found ≡ fl.of_nat 0
      none_found = ap fl.of_int e ∙ float.of_int-zero

      over :
          fl.le
            (fl.mul (wanted fl expected 1) (fl.add (one fl) (one fl)))
            (fl.of_int w.var_diff_shares_found)
          ≡ false
      over =
          ap (λ n. fl.le (fl.mul n (fl.add (one fl) (one fl))) (fl.of_int w.var_diff_shares_found))
            wanted_one
          ∙ ap (fl.le (fl.mul (fl.of_nat expected) (fl.add (one fl) (one fl)))) none_found
          ∙ float.above_zero expected positive

      under :
          fl.le
            (fl.of_int w.var_diff_shares_found)
            (fl.mul (wanted fl expected 1) (fl.sub (one fl) (one fl)))
          ≡ true
      under =
          ap (λ s. fl.le s (fl.mul (wanted fl expected 1) (fl.sub (one fl) (one fl)))) none_found
          ∙ float.not_above (1 * expected % 2 ^ 64)

  check_rate-fall :
      (now : ℕ) (w : WorkStats F)
      → IsStarved w
      → check_rate fl expected now w ≡ some (fall fl now w w.var_diff_start_time)
  unfolding check_rate
  check_rate-fall now w p = go w.var_diff_start_time
    where
      go : (start : Option ℕ) → check_since fl expected now w start ≡ some (fall fl now w start)
      go none = refl
      go (some t) =
          ap (λ i. check_worker fl expected (now - t) w (at i windows) (at i (tolerances fl)))
            p.window
          ∙ ap some (
              first_window (read fl expected (now - t) w) w p.window
              ∙ check_current-fall now t w p.shares)

module _ {F D : Type 0} (fl : FloatOps F) (float : IsFloat fl) (expected : ℕ)
    (positive : 1 ≤ expected) (small : expected < 2 ^ 64) (consensus : Consensus D) where
  fall-IsStarved :
      (now : ℕ) (w : WorkStats F) (start : Option ℕ) → IsStarved w → IsStarved (fall fl now w start)
  unfolding update_var_diff
  fall-IsStarved now w none p = p
  fall-IsStarved now w (some t) p = go (fl.le (one fl) (minutes fl (now - t)))
    where
      go :
          (b : Bool)
          → IsStarved (if b then update_var_diff (fl.mul w.min_diff (fl.decimal 1 1)) w else w)
      go true = record { shares = p.shares; window = refl }
      go false = p

  IsStarved-kept : IsKept fl expected consensus IsStarved
  unfolding update_var_diff
  IsStarved-kept = record {
    fresh = λ now wallet name. record { shares = refl; window = refl };
    counts = λ t now x w p. counts-IsStarved (fl.of_nat 0) fl.add t now x w p;
    updates = λ d w p. record { shares = p.shares; window = refl };
    begins = λ now w p. start-IsStarved now w p;
    checks = λ now w w' p e.
        let fell = check_rate-fall fl float expected positive small now w p in
        let same : fall fl now w w.var_diff_start_time ≡ w' = ground (arith, e, fell) in
        rw (← same) (fall-IsStarved now w w.var_diff_start_time p);
  }

  -- However many shares a worker hands in, the difficulty thread counts none of them: the worker
  -- stays in the first window, and each check a minute or more after its difficulty was sent takes
  -- the difficulty to a tenth and does nothing else. The arithmetic of floats is relied on for sums
  -- with zero and one.
  pub difficulty_falls :
      (key : Bytes) (w : WorkStats F) (stats : Map Bytes (WorkStats F)) (now : ℕ)
      → Reached fl expected consensus stats
      → lookup key stats ≡ some w
      → (w.var_diff_shares_found ≡ pos 0)
        × (w.var_diff_window ≡ pos 0)
        × (check_rate fl expected now w ≡ some (fall fl now w w.var_diff_start_time))
  difficulty_falls key w stats now r e =
      let p =
        lookup-AllWorkers IsStarved key w stats
          (Reached-AllWorkers fl expected consensus IsStarved IsStarved-kept stats r) e in
      (p.shares, p.window, check_rate-fall fl float expected positive small now w p)
