-- ===== src/Server/Recovered.antt =====
-- How the recovery of pending rewards in `ListenAndServe` of src/htnstratum/stratum_server.go ends.
use htn_stratum_bridge.Prelude.{
  ℕ, zero, suc, ◌+◌, ◌≤◌, ◌≡◌, refl, ◌⊎◌, inl, inr, Bool, true, false, List, [], ◌∷◌, map, Bytes,
  codes, All, take, if◌then◌else◌, bytes_eq, arith,
}
use htn_stratum_bridge.Db.{Table}
use htn_stratum_bridge.Booking.{View}
use htn_stratum_bridge.Booking.Once.{All-take}
use htn_stratum_bridge.Server.Recovery.{
  pending_hashes, Lookup, tries, Recovery, advance, move, run, recover_pending,
}
use htn_stratum_bridge.Server.Waiting.{is_busy, Among, IsAheadOf, IsAhead, Ahead-mono}
use htn_stratum_bridge.Server.Rounds.{
  tries_rounds, rounds, count, Still, IsUsable, IsReady, Goes, advance-Goes,
}

-- The moves that all lookups have left, at most.
unfoldable pub rounds_left : List (Bytes × Lookup) → ℕ
unfolding tries_rounds
rounds_left [] = 0
rounds_left ((h, l) ∷ lookups) = rounds l + rounds_left lookups

module _ (to_lower : Bytes → Bytes) where
  abbrev AllReady : List (Bytes × Lookup) → Type 0
  AllReady lookups = All (λ p. IsReady to_lower p.1) lookups

  -- The lookup at a place is under way.
  unfoldable pub picks : ℕ → List (Bytes × Lookup) → Bool
  picks i [] = false
  picks zero ((h, l) ∷ lookups) = is_busy l
  picks (suc i) (p ∷ lookups) = picks i lookups

  record Moves (i : ℕ) (lookups : List (Bytes × Lookup)) (rows : Table)
      (r : List (Bytes × Lookup) × Table) : Type 1 where
    pub ready : AllReady r.0
    pub shorter : rounds_left r.0 + count (picks i lookups) ≤ rounds_left lookups
    pub ahead :
        (A : Bytes → Type 0)
        → All (IsAheadOf (λ g. A g ⊎ Among g lookups)) rows
        → All (IsAheadOf (λ g. A g ⊎ Among g r.0)) r.1

  swap : {X Y Z : Type 0} → X ⊎ (Y ⊎ Z) → Y ⊎ (X ⊎ Z)
  swap (inl x) = inr (inl x)
  swap (inr (inl y)) = inl y
  swap (inr (inr z)) = inr (inr z)

  left : {X Y Z : Type 0} → X ⊎ (Y ⊎ Z) → (X ⊎ Y) ⊎ Z
  left (inl x) = inl (inl x)
  left (inr (inl y)) = inl (inr y)
  left (inr (inr z)) = inr z

  right : {X Y Z : Type 0} → (X ⊎ Y) ⊎ Z → X ⊎ (Y ⊎ Z)
  right (inl (inl x)) = inl x
  right (inl (inr y)) = inr (inl y)
  right (inr z) = inr (inr z)

  move-Moves :
      (i : ℕ) (lookups : List (Bytes × Lookup)) (rows : Table)
      → AllReady lookups
      → Moves i lookups rows (move to_lower i lookups rows)
  unfolding move picks rounds_left
  move-Moves i [] rows ready = record { ready = tt; shorter = omega arith; ahead = λ A all. all }
  move-Moves zero ((h, l) ∷ lookups) rows (r, ready) =
      let (l', rows') = advance to_lower h l rows in
      let g : Goes to_lower h l rows (l', rows') = advance-Goes to_lower h l rows r in
      record {
        ready = (g.ready, ready);
        shorter = omega (arith, g.shorter);
        ahead = λ A all.
            let others : Bytes → Type 0 = λ x. A x ⊎ Among x lookups in
            Ahead-mono (Still h l' others) (λ x. A x ⊎ Among x ((h, l') ∷ lookups)) rows'
              (λ x. swap)
              (g.ahead others (
                Ahead-mono (λ x. A x ⊎ Among x ((h, l) ∷ lookups)) (Still h l others) rows
                  (λ x. swap) all));
      }
  move-Moves (suc i) ((h, l) ∷ lookups) rows (r, ready) =
      let (lookups', rows') = move to_lower i lookups rows in
      let m : Moves i lookups rows (lookups', rows') = move-Moves i lookups rows ready in
      record {
        ready = (r, m.ready);
        shorter = omega (arith, m.shorter);
        ahead = λ A all.
            let others : Bytes → Type 0 = λ x. A x ⊎ ((x ≡ h) × (is_busy l ≡ true)) in
            Ahead-mono (λ x. others x ⊎ Among x lookups') (λ x. A x ⊎ Among x ((h, l) ∷ lookups'))
              rows' (λ x. right)
              (m.ahead others (
                Ahead-mono (λ x. A x ⊎ Among x ((h, l) ∷ lookups)) (λ x. others x ⊎ Among x lookups)
                  rows (λ x. left) all));
      }

  -- How many moves of a schedule are moves of a lookup that is under way.
  unfoldable pub worked : List ℕ → Recovery → ℕ
  unfolding picks
  worked [] s = 0
  worked (i ∷ schedule) s =
      let (lookups, table) = move to_lower i s.lookups s.table in
      count (picks i s.lookups) + worked schedule (record { lookups = lookups; table = table })

  bare : {X : Type 0} → ⊥ ⊎ X → X
  bare (inl nothing) = absurd nothing
  bare (inr x) = x

  run-IsAhead :
      (schedule : List ℕ) (s : Recovery)
      → AllReady s.lookups
      → All (IsAhead s.lookups) s.table
      → let now = run to_lower schedule s in
        (rounds_left now.lookups + worked schedule s ≤ rounds_left s.lookups)
        × All (IsAhead now.lookups) now.table
  unfolding run worked
  run-IsAhead [] s ready ahead = (omega arith, ahead)
  run-IsAhead (i ∷ schedule) s ready ahead =
      let (lookups, table) = move to_lower i s.lookups s.table in
      let m : Moves i s.lookups s.table (lookups, table) = move-Moves i s.lookups s.table ready in
      let (shorter, later) =
        run-IsAhead schedule (record { lookups = lookups; table = table }) m.ready
          (Ahead-mono (λ x. ⊥ ⊎ Among x lookups) (λ x. Among x lookups) table (λ x. bare)
            (m.ahead (λ x. ⊥)
              (Ahead-mono (λ x. Among x s.lookups) (λ x. ⊥ ⊎ Among x s.lookups) s.table (λ x. inr)
                ahead))) in
      (omega (arith, shorter, m.shorter), later)

  abbrev at_start : (Bytes → List View) → Bytes → Bytes × Lookup
  at_start views h = (h, tries (take 15 (views h)))

  start-AllReady :
      (views : Bytes → List View) (hashes : List Bytes)
      → ((h : Bytes) → All (IsUsable to_lower) (views h))
      → AllReady (map (at_start views) hashes)
  start-AllReady views [] usable = tt
  start-AllReady views (h ∷ hashes) usable =
      (All-take (IsUsable to_lower) 15 (views h) (usable h), start-AllReady views hashes usable)

  start-IsAhead :
      (views : Bytes → List View) (rows : Table)
      → All (IsAhead (map (at_start views) (pending_hashes rows))) rows
  unfolding pending_hashes
  start-IsAhead views [] = tt
  start-IsAhead views (r ∷ rows) =
      go (bytes_eq r.status (codes "pending")) refl (start-IsAhead views rows)
    where
      rest : List Bytes
      rest = pending_hashes rows

      go :
          (b : Bool)
          → bytes_eq r.status (codes "pending") ≡ b
          → All (IsAhead (map (at_start views) rest)) rows
          → All
              (IsAhead (map (at_start views) (if b then r.block_hash ∷ rest else rest)))
              (r ∷ rows)
      go true e all = (
        inr (inl (refl, refl)),
        Ahead-mono (λ x. Among x (map (at_start views) rest))
            (λ x. Among x (map (at_start views) (r.block_hash ∷ rest))) rows (λ x. inr) all,
      )
      go false e all = (inl e, all)

  -- In whatever order the lookups of the recovery move, between their calls on the table: the moves
  -- of lookups that are under way are no more than the rounds that they have at the start, so that
  -- all of them end, and every row that is still pending has the lookup of its block under way, so
  -- that no row is left pending when they have ended. The blocks that the node knows come with
  -- verbose data, and no coinbase pays 2^63 atoms or more.
  pub recovery_ends :
      (views : Bytes → List View) (rows : Table) (schedule : List ℕ)
      → ((h : Bytes) → All (IsUsable to_lower) (views h))
      → let start = recover_pending to_lower views rows in
        let now = run to_lower schedule start in
        (rounds_left now.lookups + worked schedule start ≤ rounds_left start.lookups)
        × All (IsAhead now.lookups) now.table
  unfolding recover_pending
  recovery_ends views rows schedule usable =
      run-IsAhead schedule (recover_pending to_lower views rows)
        (start-AllReady views (pending_hashes rows) usable) (start-IsAhead views rows)
