-- ===== src/Pow/Matrix.antt =====
-- The matrices of src/pow/heavyhash.go: how they are drawn from a hash, and their rank. A matrix is
-- the list of its rows. The loop that draws until the rank is full runs on fuel.
use htn_stratum_bridge.Prelude.{
  ℕ, zero, suc, ◌-◌, ◌/◌, ◌%◌, ◌^◌, Bool, true, false, not, ◌&&◌, Option, none, some, List, [], ◌∷◌,
  ◌++◌, Bytes, map, get_elem?, nat_eq, ltb, if◌then◌else◌,
}
use htn_stratum_bridge.Pow.Xoshiro.{Xoshiro, seeded, next_word}
use htn_stratum_bridge.Pow.Floats.{FloatOps, complex_non_linear}

-- The lowest `n` nibbles of a word, lowest first: `(val >> 4*k) & 0x0F`.
unfoldable pub nibbles : ℕ → ℕ → List ℕ
nibbles zero val = []
nibbles (suc n) val = val % 16 ∷ nibbles n (val / 16)

-- `n` words of the generator, and 16 entries of each.
unfoldable pub draw_row : ℕ → Xoshiro → Xoshiro × List ℕ
unfolding next_word nibbles
draw_row zero x = (x, [])
draw_row (suc n) x =
    let (x', val) = next_word x in let (x'', row) = draw_row n x' in (x'', nibbles 16 val ++ row)

-- `n` rows of four words.
unfoldable pub draw_rows : ℕ → Xoshiro → Xoshiro × List (List ℕ)
unfolding draw_row
draw_rows zero x = (x, [])
draw_rows (suc n) x =
    let (x', row) = draw_row 4 x in let (x'', rows) = draw_rows n x' in (x'', row ∷ rows)

module _ {F : Type 0} (fl : FloatOps F) where
  abbrev pub epsilon : F
  epsilon = fl.decimal 1 9

  -- `B[k][p]`; the lists have 64 entries, so that the default is not met.
  abbrev pub entry : ℕ → List F → F
  entry p row = elim (get_elem? row p) [ none ↦ fl.of_nat 0 | some v ↦ v ]

  -- `for p := from; p < 64; p++ { row[p] = f(p, row[p]) }`, for the row's part from `p` on.
  unfoldable pub update_from : ℕ → (ℕ → F → F) → ℕ → List F → List F
  update_from from f p [] = []
  update_from from f p (v ∷ row) =
      (if ltb p from then v else f p v) ∷ update_from from f (suc p) row

  -- The first row from `j` on that is not selected and has a pivot in column `i`; its index is 64
  -- where there is none.
  unfoldable pub find_pivot : ℕ → ℕ → List (Bool × List F) → Option ℕ
  find_pivot i j [] = none
  find_pivot i j ((selected, row) ∷ rows) =
      if not selected && fl.lt epsilon (fl.abs (entry i row))
      then some j
      else find_pivot i (suc j) rows

  -- `B[j][p] /= B[j][i]`, from column i + 1 on.
  abbrev pub normalised : ℕ → List F → List F
  normalised i row = update_from (suc i) (λ p v. fl.div v (entry i row)) 0 row

  -- `B[k][p] -= B[j][p] * B[k][i]`, where `B[k][i]` is not small.
  abbrev pub eliminated : ℕ → List F → List F → List F
  eliminated i pivot row =
      if fl.lt epsilon (fl.abs (entry i row))
      then update_from (suc i) (λ p v. fl.sub v (fl.mul (entry p pivot) (entry i row))) 0 row
      else row

  -- The rows after the elimination with row `j`, those from `k` on.
  unfoldable pub eliminate : ℕ → ℕ → List F → ℕ → List (Bool × List F) → List (Bool × List F)
  unfolding update_from
  eliminate i j pivot k [] = []
  eliminate i j pivot k ((selected, row) ∷ rows) =
      (if nat_eq k j then (true, pivot) else (selected, eliminated i pivot row))
      ∷ eliminate i j pivot (suc k) rows

  abbrev pub row_at : ℕ → List (Bool × List F) → List F
  row_at j rows = elim (get_elem? rows j) [ none ↦ [] | some (selected, row) ↦ row ]

  -- One column of the elimination: the rows and the rank so far.
  abbrev pub with_pivot : ℕ → List (Bool × List F) → ℕ → Option ℕ → List (Bool × List F) × ℕ
  with_pivot i rows rank none = (rows, rank)
  with_pivot i rows rank (some j) = (eliminate i j (normalised i (row_at j rows)) 0 rows, suc rank)

  -- The columns from `i` on, `n` of them.
  unfoldable pub rank_from : ℕ → ℕ → List (Bool × List F) → ℕ → ℕ
  unfolding find_pivot eliminate
  rank_from zero i rows rank = rank
  rank_from (suc n) i rows rank =
      let (rows', rank') = with_pivot i rows rank (find_pivot i 0 rows) in
      rank_from n (suc i) rows' rank'

  -- The elimination on the values that `f` gives for the entries.
  abbrev pub rank_of : (ℕ → F) → List (List ℕ) → ℕ
  rank_of f mat = rank_from 64 0 (map (λ row. (false, map f row)) mat) 0

  -- `computeRank`
  unfoldable pub compute_rank : List (List ℕ) → ℕ
  compute_rank mat = rank_of fl.of_nat mat

  -- `computeHoohashRank`
  unfoldable pub compute_hoohash_rank : List (List ℕ) → ℕ
  compute_hoohash_rank mat =
      rank_of (λ v. fl.add (fl.of_nat v) (complex_non_linear fl (fl.of_nat v))) mat

-- The loop of both generators: matrices are drawn until the rank is full.
unfoldable pub draw_until : (List (List ℕ) → ℕ) → ℕ → Xoshiro → Option (List (List ℕ))
draw_until rank zero x = none
draw_until rank (suc fuel) x =
    let (x', mat) = draw_rows 64 x in
    let again = draw_until rank fuel x' in if nat_eq (rank mat) 64 then some mat else again

module _ {F : Type 0} (fl : FloatOps F) where
  -- `GenerateMatrix`
  unfoldable pub generate_matrix : ℕ → Bytes → Option (List (List ℕ))
  generate_matrix fuel hash = draw_until (compute_rank fl) fuel (seeded hash)

  -- `GenerateHoohashMatrix`
  unfoldable pub generate_hoohash_matrix : ℕ → Bytes → Option (List (List ℕ))
  generate_hoohash_matrix fuel hash = draw_until (compute_hoohash_rank fl) fuel (seeded hash)

  -- `float64(lower4Bytes) / float64(math.MaxUint32) * normalize`
  abbrev pub normalise : ℕ → F
  normalise val =
      fl.mul (fl.div (fl.of_nat (val % 2 ^ 32)) (fl.of_nat (2 ^ 32 - 1))) (fl.of_nat 1000000)

  -- `n` entries of a row.
  unfoldable pub draw_float_row : ℕ → Xoshiro → Xoshiro × List F
  unfolding next_word
  draw_float_row zero x = (x, [])
  draw_float_row (suc n) x =
      let (x', val) = next_word x in
      let (x'', row) = draw_float_row n x' in (x'', normalise val ∷ row)

  unfoldable pub draw_float_rows : ℕ → Xoshiro → List (List F)
  unfolding draw_float_row
  draw_float_rows zero x = []
  draw_float_rows (suc n) x = let (x', row) = draw_float_row 64 x in row ∷ draw_float_rows n x'

  -- `GenerateHoohashMatrixV110`
  unfoldable pub generate_hoohash_matrix_v110 : Bytes → List (List F)
  unfolding draw_float_rows seeded
  generate_hoohash_matrix_v110 hash = draw_float_rows 64 (seeded hash)
