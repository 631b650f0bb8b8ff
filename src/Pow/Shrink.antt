-- ===== src/Pow/Shrink.antt =====
-- The loops of `HoohashMatrixMultiplicationV1` and `V101` of src/pow/heavyhash.go end.
use htn_stratum_bridge.Prelude.{
  ℕ, suc, ◌*◌, ◌≤◌, ◌<◌, ◌≡◌, refl, true, false, Option, some, List, [], ◌∷◌, Bytes, IsBytes, All,
  Bool-cases, inl, inr, arith,
}
use htn_stratum_bridge.Pow.Exact.{IsNibble, nibbles_of-IsNibble}
use htn_stratum_bridge.Pow.Floats.{FloatOps, scale_down, complex_non_linear}
use htn_stratum_bridge.Pow.Multiply.{
  nibbles_of, xor_pairs, combine, complex_dot, complex_product, hoohash, hoohash_v1, hoohash_v101,
}

module _ {F : Type 0} (fl : FloatOps F) where
  abbrev tenth : F → F
  tenth x = fl.mul x (fl.decimal 1 1)

  -- What the arithmetic of `float64` gives for small natural numbers: the product of two nibbles is
  -- exact, a tenth of a number below ten times another is no larger than that, and taking a tenth
  -- and the order of the naturals are monotone.
  pub record IsRounded : Type 0 where
    pub product :
        (m v : ℕ) → IsNibble m → IsNibble v → fl.mul (fl.of_nat m) (fl.of_nat v) ≡ fl.of_nat (m * v)
    pub shorter :
        (n k : ℕ) → n < 10 * k → k < 100 → fl.le (tenth (fl.of_nat n)) (fl.of_nat k) ≡ true
    pub tenth_mono : (x y : F) → fl.le x y ≡ true → fl.le (tenth x) (tenth y) ≡ true
    pub le_trans : (x y z : F) → fl.le x y ≡ true → fl.le y z ≡ true → fl.le x z ≡ true
    pub le_nat : (m n : ℕ) → m ≤ n → n < 100 → fl.le (fl.of_nat m) (fl.of_nat n) ≡ true
    pub not_lt : (x y : F) → fl.le x y ≡ true → fl.lt y x ≡ false

  -- Two divisions by ten bring the product of two nibbles to the limit.
  abbrev Shrinks : F → Type 0
  Shrinks limit =
      (m v : ℕ)
      → IsNibble m
      → IsNibble v
      → fl.lt limit (tenth (tenth (fl.mul (fl.of_nat m) (fl.of_nat v)))) ≡ false

  -- From 225 at most to 23, then to 3.
  IsRounded-Shrinks : (limit : ℕ) → 3 ≤ limit → limit < 100 → IsRounded → Shrinks (fl.of_nat limit)
  IsRounded-Shrinks limit low high h m v hm hv =
      let small : m * v ≤ 225 = grind arith in
      let once : fl.le (tenth (fl.of_nat (m * v))) (fl.of_nat 23) ≡ true =
        h.shorter (m * v) 23 (omega arith) (omega arith) in
      let twice : fl.le (tenth (tenth (fl.of_nat (m * v)))) (fl.of_nat 3) ≡ true =
        h.le_trans _ _ _ (h.tenth_mono _ _ once) (h.shorter 23 3 (omega arith) (omega arith)) in
      rw (h.product m v hm hv) (h.not_lt _ _ (h.le_trans _ _ _ twice (h.le_nat 3 limit low high)))

  -- A loop that returns, and what it returns.
  abbrev Ends {ℓ} : {A : Type ℓ} → Option A → Type ℓ
  Ends {A = A} o = (y : A) × (o ≡ some y)

  scale_down-step :
      (limit : F) (fuel : ℕ) (x : F)
      → Ends (scale_down fl limit fuel (tenth x))
      → Ends (scale_down fl limit (suc fuel) x)
  unfolding scale_down
  scale_down-step limit fuel x (y, e) = elim (Bool-cases (fl.lt limit x)) [
    | inl above ↦ (y, rw above e)
    | inr small ↦ (x, rw small refl)
  ]

  scale_down-Ends :
      (limit : F) (fuel : ℕ) (x : F)
      → fl.lt limit (tenth (tenth x)) ≡ false
      → Ends (scale_down fl limit (suc (suc (suc fuel))) x)
  unfolding scale_down
  scale_down-Ends limit fuel x h =
      scale_down-step limit (suc (suc fuel)) x
        (scale_down-step limit (suc fuel) (tenth x) (tenth (tenth x), rw h refl))

  module _ (limit : F) (fuel : ℕ) (shrinks : Shrinks limit) where
    complex_dot-Ends :
        (row vector : List ℕ) (sum : F)
        → All IsNibble row
        → All IsNibble vector
        → Ends (complex_dot fl limit (suc (suc (suc fuel))) row vector sum)
    unfolding complex_dot
    complex_dot-Ends [] vector sum hr hv = (sum, refl)
    complex_dot-Ends (m ∷ row) [] sum hr hv = (sum, refl)
    complex_dot-Ends (m ∷ row) (v ∷ vector) sum hr hv =
        let x = fl.mul (fl.of_nat m) (fl.of_nat v) in
        let (y, e) = scale_down-Ends limit fuel x (shrinks m v hr.0 hv.0) in
        rw (e, complex_dot)
          (complex_dot-Ends row vector (fl.add sum (complex_non_linear fl y)) hr.1 hv.1)

    complex_product-Ends :
        (mat : List (List ℕ)) (vector : List ℕ)
        → All (All IsNibble) mat
        → All IsNibble vector
        → Ends (complex_product fl limit (suc (suc (suc fuel))) mat vector)
    unfolding complex_product
    complex_product-Ends [] vector hm hv = ([], refl)
    complex_product-Ends (row ∷ mat) vector hm hv =
        let (x, e) = complex_dot-Ends row vector (fl.of_nat 0) hm.0 hv in
        let (xs, es) = complex_product-Ends mat vector hm.1 hv in
        (x ∷ xs, rw (e, es, complex_product) refl)

    hoohash-Ends :
        (finish : Bytes → Bytes) (mat : List (List ℕ)) (hash : Bytes)
        → All (All IsNibble) mat
        → IsBytes hash
        → Ends (hoohash fl limit finish (suc (suc (suc fuel))) mat hash)
    hoohash-Ends finish mat hash hm hh =
        let (product, e) =
          complex_product-Ends mat (nibbles_of hash) hm (nibbles_of-IsNibble hash hh) in
        (finish (xor_pairs (combine fl) hash product), rw (e, hoohash) refl)

  -- With a matrix of nibbles the products of both versions return: three rounds are enough for each
  -- loop that scales a value down to 16 or 14, with arithmetic that is exact and monotone for small
  -- numbers.
  pub hoohash_returns :
      (finish : Bytes → Bytes) (fuel : ℕ) (mat : List (List ℕ)) (hash : Bytes)
      → IsRounded
      → All (All IsNibble) mat
      → IsBytes hash
      → Ends (hoohash_v1 fl finish (suc (suc (suc fuel))) mat hash)
        × Ends (hoohash_v101 fl finish (suc (suc (suc fuel))) mat hash)
  unfolding hoohash_v1 hoohash_v101
  hoohash_returns finish fuel mat hash h hm hh = (
    hoohash-Ends (fl.of_nat 16) fuel (IsRounded-Shrinks 16 (omega arith) (omega arith) h) finish mat
        hash hm hh,
    hoohash-Ends (fl.of_nat 14) fuel (IsRounded-Shrinks 14 (omega arith) (omega arith) h) finish mat
        hash hm hh,
  )
