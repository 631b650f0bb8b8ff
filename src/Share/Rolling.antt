-- ===== src/Share/Rolling.antt =====
-- `updateRollingCounters` of src/htnstratum/share_handler.go: counters by the minute, kept for a day.
use htn_stratum_bridge.Prelude.{
  ℕ, ◌+◌, ◌/◌, ◌≡◌, refl, ap, ◌∙◌, Bool, true, false, ◌&&◌, not, Option, none, some, [], ◌∷◌, Map,
  lookup, insert, lookup-insert, nat_Eq, nat_eq, nat_eq_iff, ltb, ℤ, pos, int_inc, if◌then◌else◌,
  arith,
}
use htn_stratum_bridge.Share.Stats.{
  WorkStats, or_zero, bump, window, drop_old, update_rolling_counters,
}

lookup-drop_old :
    {A : Type 0} (minute k : ℕ) (m : Map ℕ A)
    → lookup k (drop_old minute m) ≡ (if ltb (k + window) minute then none else lookup k m)
unfolding lookup drop_old
lookup-drop_old minute k [] = ground arith
lookup-drop_old minute k ((j, v) ∷ m) = ground (arith, nat_eq_iff j k, lookup-drop_old minute k m)

-- The count of a minute `k` after a submission in the minute `minute`, which counts if `hit`.
abbrev pub rolled : Bool → ℕ → ℕ → Map ℕ ℤ → Option ℤ
rolled hit minute k m =
    if ltb (k + window) minute
    then none
    else if hit && nat_eq minute k
    then some (int_inc (or_zero (pos 0) (lookup minute m)))
    else lookup k m

lookup-rolled :
    (hit : Bool) (minute k : ℕ) (m : Map ℕ ℤ)
    → lookup k (drop_old minute (if hit then bump minute m else m)) ≡ rolled hit minute k m
lookup-rolled true minute k m =
    lookup-drop_old minute k (bump minute m)
    ∙ ap (λ o. if ltb (k + window) minute then none else o)
        (lookup-insert minute k (int_inc (or_zero (pos 0) (lookup minute m))) m)
lookup-rolled false minute k m = lookup-drop_old minute k m

-- All of a worker's statistics but the four maps.
abbrev pub rest_of : {F : Type 0} → WorkStats F → WorkStats F
rest_of w = record w {
  rolling_shares = [];
  rolling_shares_diff = [];
  rolling_stale_shares = [];
  rolling_invalid_shares = [];
}

module _ {F : Type 0} (zero_f : F) (add : F → F → F) where
  -- The difficulty that a minute `k` adds up to after a share of `share_diff` in the minute
  -- `minute`, which counts if `hit`.
  abbrev pub rolled_diff : F → Bool → ℕ → ℕ → Map ℕ F → Option F
  rolled_diff share_diff hit minute k m =
      if ltb (k + window) minute
      then none
      else if hit && nat_eq minute k
      then some (add (or_zero zero_f (lookup minute m)) share_diff)
      else lookup k m

  lookup-rolled_diff :
      (share_diff : F) (minute k : ℕ) (m : Map ℕ F)
      → lookup k
          (drop_old minute (insert minute (add (or_zero zero_f (lookup minute m)) share_diff) m))
        ≡ rolled_diff share_diff true minute k m
  lookup-rolled_diff share_diff minute k m =
      lookup-drop_old minute k (insert minute (add (or_zero zero_f (lookup minute m)) share_diff) m)
      ∙ ap (λ o. if ltb (k + window) minute then none else o)
          (lookup-insert minute k (add (or_zero zero_f (lookup minute m)) share_diff) m)

  -- After `updateRollingCounters` the entries of minutes more than 1440 before the present one are
  -- gone from all four maps. The count of the present minute is one higher in the one map that the
  -- share belongs to, that of stale shares before that of invalid ones, and the difficulty of a
  -- share that is neither is added to the present minute. Every other entry is as it was, and so is
  -- the rest of the statistics.
  pub update_rolling_counters_lem :
      (now k : ℕ) (share_diff : F) (is_stale is_invalid : Bool) (w : WorkStats F)
      → let w' = update_rolling_counters zero_f add now share_diff is_stale is_invalid w in
        let minute = now / 60 in
        let is_good = not is_stale && not is_invalid in
        (lookup k w'.rolling_shares ≡ rolled is_good minute k w.rolling_shares)
        × (lookup k w'.rolling_stale_shares ≡ rolled is_stale minute k w.rolling_stale_shares)
        × (lookup k w'.rolling_invalid_shares
            ≡ rolled (not is_stale && is_invalid) minute k w.rolling_invalid_shares)
        × (lookup k w'.rolling_shares_diff
            ≡ rolled_diff share_diff is_good minute k w.rolling_shares_diff)
        × (rest_of w' ≡ rest_of w)
  unfolding update_rolling_counters
  update_rolling_counters_lem now k share_diff is_stale is_invalid w = go is_stale is_invalid
    where
      go :
          (a b : Bool)
          → let w' = update_rolling_counters zero_f add now share_diff a b w in
            let minute = now / 60 in
            (lookup k w'.rolling_shares ≡ rolled (not a && not b) minute k w.rolling_shares)
            × (lookup k w'.rolling_stale_shares ≡ rolled a minute k w.rolling_stale_shares)
            × (lookup k w'.rolling_invalid_shares
                ≡ rolled (not a && b) minute k w.rolling_invalid_shares)
            × (lookup k w'.rolling_shares_diff
                ≡ rolled_diff share_diff (not a && not b) minute k w.rolling_shares_diff)
            × (rest_of w' ≡ rest_of w)
      go true b = (
        lookup-rolled false (now / 60) k w.rolling_shares,
        lookup-rolled true (now / 60) k w.rolling_stale_shares,
        lookup-rolled false (now / 60) k w.rolling_invalid_shares,
        lookup-drop_old (now / 60) k w.rolling_shares_diff,
        refl,
      )
      go false true = (
        lookup-rolled false (now / 60) k w.rolling_shares,
        lookup-rolled false (now / 60) k w.rolling_stale_shares,
        lookup-rolled true (now / 60) k w.rolling_invalid_shares,
        lookup-drop_old (now / 60) k w.rolling_shares_diff,
        refl,
      )
      go false false = (
        lookup-rolled true (now / 60) k w.rolling_shares,
        lookup-rolled false (now / 60) k w.rolling_stale_shares,
        lookup-rolled false (now / 60) k w.rolling_invalid_shares,
        lookup-rolled_diff share_diff (now / 60) k w.rolling_shares_diff,
        refl,
      )
