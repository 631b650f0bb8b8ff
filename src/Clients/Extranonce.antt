-- ===== src/Clients/Extranonce.antt =====
-- `OnConnect` of src/htnstratum/client_handler.go: the extranonces that it hands out.
use htn_stratum_bridge.Prelude.{
  ℕ, zero, suc, ◌+◌, ◌≤◌, ◌<◌, ◌≡◌, ◌≢◌, refl, sym, inl, inr, Bool-cases, ◌-◌, ◌∙◌, true, List, [],
  ◌∷◌, get_elem?, length, some, ltb, pos, ltb_ℤ, if◌then◌else◌, ◌%◌, arith, ap,
}
use native.Mathlib.Nat.{mod-eq_of_lt, mod_self, mod-lt, mod-add-mod, mod-eq-sub-mod}
use htn_stratum_bridge.Clients.{ClientListener, on_connect}

wrap : (n m : ℕ) → n ≤ m → (if ltb n m then n + 1 else 0) ≡ (n + 1) % (m + 1)
wrap n m h = elim (Bool-cases (ltb n m)) [
  | inl below ↦ rw (below) (sym (mod-eq_of_lt (ground arith)))
  | inr top ↦ let same : n ≡ m = ground arith in rw (top, same) (sym (mod_self (m + 1)))
]

-- Fewer than `m` steps around a cycle of `m` do not lead back.
cycle_ne : (a d m : ℕ) → 0 < d → d < m → a % m ≢ (a + d) % m
cycle_ne a d m some_steps few same = elim (Bool-cases (ltb (a % m + d) m)) [
  | inl below ↦
      let there : (a + d) % m ≡ a % m + d = sym (mod-add-mod a m d) ∙ mod-eq_of_lt (ground arith) in
      omega arith
  | inr above ↦
      let there : (a + d) % m ≡ a % m + d - m =
        sym (mod-add-mod a m d)
        ∙ mod-eq-sub-mod (ground arith)
        ∙ mod-eq_of_lt (omega (arith, mod-lt a {m = m} (omega arith))) in
      ground arith
]

module _ {C : Type 0} where
  -- The extranonces of clients that connect one after another.
  unfoldable pub extranonces : List C → ClientListener C → List ℕ
  extranonces [] l = []
  extranonces (c ∷ cs) l =
      let (l', _, extranonce) = on_connect c l in extranonce ∷ extranonces cs l'

  on_connect-next :
      (c : C) (l : ClientListener C)
      → ltb_ℤ (pos 0) l.extranonce_size ≡ true
      → l.next_extranonce ≤ l.max_extranonce
      → let (l', _, extranonce) = on_connect c l in
        (extranonce ≡ l.next_extranonce)
        × (l'.extranonce_size ≡ l.extranonce_size)
        × (l'.max_extranonce ≡ l.max_extranonce)
        × (l'.next_extranonce ≡ (l.next_extranonce + 1) % (l.max_extranonce + 1))
        × (l'.next_extranonce ≤ l.max_extranonce)
  unfolding on_connect
  on_connect-next c l used h =
      rw used (refl, refl, refl, wrap l.next_extranonce l.max_extranonce h, ground arith)

  -- The `i`th client to connect is given the `i`th extranonce after the next one, round the cycle
  -- of those up to the greatest, if the size is positive.
  pub extranonces_lem :
      (cs : List C) (l : ClientListener C) (i : ℕ)
      → ltb_ℤ (pos 0) l.extranonce_size ≡ true
      → l.next_extranonce ≤ l.max_extranonce
      → i < length cs
      → get_elem? (extranonces cs l) i ≡ some ((l.next_extranonce + i) % (l.max_extranonce + 1))
  unfolding extranonces
  extranonces_lem [] l i used h lt = absurd (omega arith)
  extranonces_lem (c ∷ cs) l zero used h lt =
      let (given, _, _, _, _) = on_connect-next c l used h in
      ap some (
        given
        ∙ sym (mod-eq_of_lt (omega arith))
        ∙ ap (λ k. k % (l.max_extranonce + 1)) (omega arith))
  extranonces_lem (c ∷ cs) l (suc i) used h lt =
      let (_, size, greatest, following, small) = on_connect-next c l used h in
      let l' = (on_connect c l).0 in
      extranonces_lem cs l' i (rw size used) (rw greatest small) (omega arith)
      ∙ ap some (
          rw (following, greatest)
            (mod-add-mod (l.next_extranonce + 1) (l.max_extranonce + 1) i
              ∙ ap (λ k. k % (l.max_extranonce + 1)) (omega arith)))

  -- No two clients of those that connect one after another have one extranonce, unless as many
  -- others as there are extranonces beside theirs connected between: if the size is positive, the
  -- `i`th and the `j`th have different ones where `i` and `j` differ by at most the greatest.
  pub extranonces_distinct :
      (cs : List C) (l : ClientListener C) (i d : ℕ)
      → ltb_ℤ (pos 0) l.extranonce_size ≡ true
      → l.next_extranonce ≤ l.max_extranonce
      → 0 < d
      → d ≤ l.max_extranonce
      → i + d < length cs
      → get_elem? (extranonces cs l) i ≢ get_elem? (extranonces cs l) (i + d)
  extranonces_distinct cs l i d used h some_steps few inside same =
      let a = extranonces_lem cs l i used h (omega arith) in
      let b = extranonces_lem cs l (i + d) used h inside in
      let ne = cycle_ne (l.next_extranonce + i) d (l.max_extranonce + 1) some_steps (omega arith) in
      let both : some ((l.next_extranonce + i) % (l.max_extranonce + 1))
          ≡ some ((l.next_extranonce + i + d) % (l.max_extranonce + 1)) =
        sym a ∙ same ∙ b ∙ ap (λ k. some (k % (l.max_extranonce + 1))) (omega arith) in
      ne (ground arith)
