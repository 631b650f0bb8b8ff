-- ===== src/Pow/Check.antt =====
-- `CheckProofOfWork` of src/pow/pow.go: what it accepts.
use htn_stratum_bridge.Prelude.{
  ℕ, ◌≡◌, ◌≢◌, ◌↔◌, refl, ap, sym, ◌∙◌, Bool, true, false, not, ◌&&◌, some, [], ◌∷◌, Bytes, IsBytes,
  length, reverse-reverse, bytes_eq, bytes_eq_iff, nat_eq_iff, le_value, ltb, leb_ℤ, pos,
  Bool-cases, inl, inr, arith,
}
use htn_stratum_bridge.Share.Tally.{to_big}
use htn_stratum_bridge.Pow.Floats.{FloatOps}
use htn_stratum_bridge.Pow.State.{
  Htnd, State, zero_hash, is_below, check_hash, pow_value, check_proof_of_work,
}

le_value-injective :
    (xs ys : Bytes)
    → IsBytes xs
    → IsBytes ys
    → length xs ≡ length ys
    → le_value xs ≡ le_value ys
    → xs ≡ ys
unfolding le_value
le_value-injective [] [] hx hy l e = refl
le_value-injective [] (y ∷ ys) hx hy l e = absurd (omega arith)
le_value-injective (x ∷ xs) [] hx hy l e = absurd (omega arith)
le_value-injective (x ∷ xs) (y ∷ ys) hx hy l e =
    let heads : x ≡ y = omega arith in
    let tails = le_value-injective xs ys hx.1 hy.1 (omega arith) (omega arith) in
    rw (heads, tails) refl

-- The value of a hash has its bytes from the lowest to the highest.
pub to_big-injective :
    (xs ys : Bytes)
    → IsBytes xs
    → IsBytes ys
    → length xs ≡ length ys
    → to_big xs ≡ to_big ys
    → xs ≡ ys
to_big-injective xs ys hx hy l e =
    le_value-injective xs ys hx hy l
      (ap le_value (sym (reverse-reverse xs)) ∙ e ∙ ap le_value (reverse-reverse ys))

-- A hash has 32 bytes.
abbrev pub IsHash : Bytes → Type 0
IsHash hash = IsBytes hash × (length hash ≡ 32)

-- Whether the stated hash is compared with the computed one.
abbrev pub compares : {F R : Type 0} → Htnd R → State F → Bool → Bool
compares htnd s skip = not (ltb s.block_version htnd.pow_integrity_min_version) && not skip

module _ {F R : Type 0} (htnd : Htnd R) (s : State F) (stated : Bytes) (skip : Bool)
    (hash submitted : Bytes) (read : htnd.hash_from_string stated ≡ some submitted) where
  check_hash-below : check_hash htnd s stated skip hash ≡ true → is_below s hash ≡ true
  unfolding check_hash
  check_hash-below ok = ground arith

  check_hash-value :
      check_hash htnd s stated skip hash ≡ true
      → compares htnd s skip ≡ true
      → (to_big submitted ≡ to_big hash) × (bytes_eq submitted zero_hash ≡ false)
  unfolding check_hash
  check_hash-value ok c = (ground arith, ground arith)

  check_hash-same :
      IsHash hash
      → IsHash submitted
      → check_hash htnd s stated skip hash ≡ true
      → compares htnd s skip ≡ true
      → (submitted ≡ hash) × (hash ≢ zero_hash)
  check_hash-same hh hs ok c =
      let (value, ne) = check_hash-value ok c in
      let same = to_big-injective submitted hash hs.0 hh.0 (hs.1 ∙ sym hh.1) value in
      (same, λ z. absurd (ground (arith, bytes_eq_iff submitted zero_hash, same ∙ z)))

  check_hash-passes :
      is_below s hash ≡ true
      → (compares htnd s skip ≡ true → (submitted ≡ hash) × (hash ≢ zero_hash))
      → check_hash htnd s stated skip hash ≡ true
  unfolding check_hash
  check_hash-passes below same = elim (Bool-cases (compares htnd s skip)) [
    | inl compared ↦
        let (e, ne) = same compared in
        let other : bytes_eq submitted zero_hash ≡ false =
          ground (arith, bytes_eq_iff submitted zero_hash, e, ne) in
        let value = (nat_eq_iff (to_big submitted) (to_big hash)).1 (ap to_big e) in
        ground (arith, value)
    | inr other_way ↦ ground arith
  ]

module _ {F R : Type 0} (fl : FloatOps F) (htnd : Htnd R) (fuel : ℕ) where
  -- A block is accepted exactly if the value of its hash does not exceed the target and, from the
  -- version on that states it and unless the check of it is skipped, the stated hash is not zero and
  -- is, byte for byte, the one that is computed. The hashes have 32 bytes, and the stated one can
  -- be read.
  pub check_proof_of_work_iff :
      (s : State F) (stated : Bytes) (skip : Bool) (hash submitted : Bytes)
      → pow_value fl htnd fuel s ≡ some hash
      → htnd.hash_from_string stated ≡ some submitted
      → IsHash hash
      → IsHash submitted
      → (check_proof_of_work fl htnd fuel s stated skip ≡ some true)
        ↔ (leb_ℤ (pos (to_big hash)) s.target ≡ true)
          × (compares htnd s skip ≡ true → (submitted ≡ hash) × (hash ≢ zero_hash))
  unfolding check_proof_of_work
  check_proof_of_work_iff s stated skip hash submitted value read hh hs =
      rw (value, check_proof_of_work)
        (
          (λ ok.
              let ok' : check_hash htnd s stated skip hash ≡ true = ground arith in
              (
                check_hash-below htnd s stated skip hash submitted read ok',
                check_hash-same htnd s stated skip hash submitted read hh hs ok',
              )),
          (λ h. ap some (check_hash-passes htnd s stated skip hash submitted read h.0 h.1)),
        )
