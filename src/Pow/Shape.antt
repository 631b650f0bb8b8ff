-- ===== src/Pow/Shape.antt =====
-- `GenerateMatrix` and `GenerateHoohashMatrix` of src/pow/heavyhash.go: the matrices they return.
use htn_stratum_bridge.Prelude.{
  ℕ, zero, suc, ◌+◌, ◌*◌, ◌/◌, ◌^◌, ◌≤◌, ◌≡◌, refl, ap, ◌∙◌, some, List, [], ◌∷◌, Bytes, All,
  All-append, length, length-append, nat_eq, nat_eq_iff, IsBytes, map, Bool-cases, inl, inr, arith,
}
use htn_stratum_bridge.Pow.Xoshiro.{Xoshiro, next_word}
use htn_stratum_bridge.Pow.Exact.{IsNibble, IsRow, dot, heavy_hash-exact}
use htn_stratum_bridge.Pow.Multiply.{nibbles_of, xor_pairs, heavy_hash}
use htn_stratum_bridge.Pow.Floats.{FloatOps}
use htn_stratum_bridge.Pow.Matrix.{
  nibbles, draw_row, draw_rows, draw_until, compute_rank, generate_matrix,
}

-- 64 rows of 64 nibbles.
abbrev pub IsSquare : List (List ℕ) → Type 0
IsSquare mat = (length mat ≡ 64) × All (λ row. All IsNibble row × (length row ≡ 64)) mat

nibbles-IsNibble : (n val : ℕ) → All IsNibble (nibbles n val)
unfolding nibbles
nibbles-IsNibble zero val = tt
nibbles-IsNibble (suc n) val = (omega arith, nibbles-IsNibble n (val / 16))

length-nibbles : (n val : ℕ) → length (nibbles n val) ≡ n
unfolding nibbles
length-nibbles zero val = refl
length-nibbles (suc n) val = ap suc (length-nibbles n (val / 16))

draw_row-IsNibble : (n : ℕ) (x : Xoshiro) → All IsNibble (draw_row n x).1
unfolding draw_row
draw_row-IsNibble zero x = tt
draw_row-IsNibble (suc n) x =
    All-append IsNibble (nibbles 16 (next_word x).1) (draw_row n (next_word x).0).1
      (nibbles-IsNibble 16 (next_word x).1) (draw_row-IsNibble n (next_word x).0)

length-draw_row : (n : ℕ) (x : Xoshiro) → length (draw_row n x).1 ≡ n * 16
unfolding draw_row
length-draw_row zero x = omega arith
length-draw_row (suc n) x =
    length-append (nibbles 16 (next_word x).1) (draw_row n (next_word x).0).1
    ∙ omega (arith, length-nibbles 16 (next_word x).1, length-draw_row n (next_word x).0)

draw_rows-IsSquare :
    (n : ℕ) (x : Xoshiro)
    → (length (draw_rows n x).1 ≡ n)
      × All (λ row. All IsNibble row × (length row ≡ 64)) (draw_rows n x).1
unfolding draw_rows
draw_rows-IsSquare zero x = (refl, tt)
draw_rows-IsSquare (suc n) x =
    let (len, rows) = draw_rows-IsSquare n (draw_row 4 x).0 in
    (ap suc len, ((draw_row-IsNibble 4 x, length-draw_row 4 x), rows))

draw_until_lem :
    (rank : List (List ℕ) → ℕ) (fuel : ℕ) (x : Xoshiro) (mat : List (List ℕ))
    → draw_until rank fuel x ≡ some mat
    → (rank mat ≡ 64) × IsSquare mat
unfolding draw_until
draw_until_lem rank zero x mat e = absurd (ground arith)
draw_until_lem rank (suc fuel) x mat e =
    let drawn = (draw_rows 64 x).1 in
    let later = draw_until rank fuel (draw_rows 64 x).0 in
    elim (Bool-cases (nat_eq (rank drawn) 64)) [
      | inl full ↦
          let same : drawn ≡ mat = ground arith in
          rw (← same) ((nat_eq_iff (rank drawn) 64).0 full, draw_rows-IsSquare 64 x)
      | inr less ↦ draw_until_lem rank fuel (draw_rows 64 x).0 mat (ground arith)
    ]

-- A matrix that was found is found with more fuel, too.
draw_until-more :
    (rank : List (List ℕ) → ℕ) (fuel more : ℕ) (x : Xoshiro) (mat : List (List ℕ))
    → draw_until rank fuel x ≡ some mat
    → fuel ≤ more
    → draw_until rank more x ≡ some mat
unfolding draw_until
draw_until-more rank zero more x mat e le = absurd (ground arith)
draw_until-more rank (suc fuel) zero x mat e le = absurd (omega arith)
draw_until-more rank (suc fuel) (suc more) x mat e le =
    elim (Bool-cases (nat_eq (rank (draw_rows 64 x).1) 64)) [
      | inl full ↦ ground arith
      | inr less ↦
          let later =
            draw_until-more rank fuel more (draw_rows 64 x).0 mat (ground arith) (omega arith) in
          ground arith
    ]

IsSquare-IsRow :
    (mat : List (List ℕ)) → All (λ row. All IsNibble row × (length row ≡ 64)) mat → All IsRow mat
IsSquare-IsRow [] h = tt
IsSquare-IsRow (row ∷ mat) h = ((h.0.0, omega (arith, h.0.1)), IsSquare-IsRow mat h.1)

module _ {F : Type 0} (fl : FloatOps F) where
  -- What `GenerateMatrix` returns has 64 rows of 64 nibbles and full rank, however many rounds it
  -- is given beyond those that are enough; and the heavy hash with it is that of exact arithmetic,
  -- for any hash of bytes.
  pub generate_matrix_lem :
      (fuel more : ℕ) (seed hash : Bytes) (mat : List (List ℕ)) (finish : Bytes → Bytes)
      → generate_matrix fl fuel seed ≡ some mat
      → fuel ≤ more
      → IsBytes hash
      → (generate_matrix fl more seed ≡ some mat)
        × ((compute_rank fl mat ≡ 64) × IsSquare mat)
        × (heavy_hash finish mat hash
            ≡ finish (
                xor_pairs
                  (λ x y. x * 16 + y)
                  hash
                  (map (λ row. dot row (nibbles_of hash) / 2 ^ 10) mat)))
  unfolding generate_matrix
  generate_matrix_lem fuel more seed hash mat finish e le bytes =
      let shape = draw_until_lem (compute_rank fl) fuel _ mat e in
      (
        draw_until-more (compute_rank fl) fuel more _ mat e le,
        shape,
        heavy_hash-exact finish mat hash (IsSquare-IsRow mat shape.1.1) bytes,
      )
