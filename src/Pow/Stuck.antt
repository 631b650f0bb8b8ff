-- ===== src/Pow/Stuck.antt =====
-- `GenerateMatrix` of src/pow/heavyhash.go on the hash of zeros.
use htn_stratum_bridge.Prelude.{
  ℕ, zero, suc, ◌≡◌, refl, ◌⊎◌, inl, inr, Bool, false, none, List, [], ◌∷◌, map,
}
use htn_stratum_bridge.Pow.Xoshiro.{seeded, next_word, zero_state}
use htn_stratum_bridge.Pow.Floats.{FloatOps}
use htn_stratum_bridge.Pow.Matrix.{
  nibbles, draw_row, draw_rows, epsilon, entry, find_pivot, rank_from, compute_rank, draw_until,
  generate_matrix,
}
use htn_stratum_bridge.Pow.State.{
  zero_bytes, zero_hash, Htnd, PowHeader, prev_hash, matrices, new_state,
}

zero_rows : ℕ → List (List ℕ)
zero_rows zero = []
zero_rows (suc n) = zero_bytes 64 ∷ zero_rows n

draw_row-zero : draw_row 4 zero_state ≡ (zero_state, zero_bytes 64)
unfolding draw_row next_word nibbles
draw_row-zero = refl

draw_rows-zero : (n : ℕ) → draw_rows n zero_state ≡ (zero_state, zero_rows n)
unfolding draw_rows zero_rows
draw_rows-zero zero = refl
draw_rows-zero (suc n) = rw (draw_rows-zero n) refl

seeded-zero : seeded zero_hash ≡ zero_state
unfolding seeded
seeded-zero = refl

module _ {F : Type 0} (fl : FloatOps F) where
  -- Zero is not above 10^-9.
  abbrev pub ZeroIsSmall : Type 0
  ZeroIsSmall = fl.lt (epsilon fl) (fl.abs (fl.of_nat 0)) ≡ false

  abbrev started : List ℕ → Bool × List F
  started row = (false, map fl.of_nat row)

  entry-zero : (i n : ℕ) → entry fl i (map fl.of_nat (zero_bytes n)) ≡ fl.of_nat 0
  entry-zero i zero = refl
  entry-zero zero (suc n) = refl
  entry-zero (suc i) (suc n) = entry-zero i n

  find_pivot-zero : (i j n : ℕ) → ZeroIsSmall → find_pivot fl i j (map started (zero_rows n)) ≡ none
  unfolding find_pivot zero_rows
  find_pivot-zero i j zero small = refl
  find_pivot-zero i j (suc n) small =
      rw (entry-zero i 64) (rw small (find_pivot-zero i (suc j) n small))

  rank_from-zero :
      (n i rank : ℕ) → ZeroIsSmall → rank_from fl n i (map started (zero_rows 64)) rank ≡ rank
  unfolding rank_from
  rank_from-zero zero i rank small = refl
  rank_from-zero (suc n) i rank small =
      rw (find_pivot-zero i 0 64 small) (rank_from-zero n (suc i) rank small)

  compute_rank-zero : ZeroIsSmall → compute_rank fl (zero_rows 64) ≡ 0
  unfolding compute_rank
  compute_rank-zero small = rank_from-zero 64 0 0 small

  draw_until-zero : (fuel : ℕ) → ZeroIsSmall → draw_until (compute_rank fl) fuel zero_state ≡ none
  unfolding draw_until
  draw_until-zero zero small = refl
  draw_until-zero (suc fuel) small =
      rw (draw_rows-zero 64) (rw (compute_rank-zero small) (draw_until-zero fuel small))

  generate_matrix-zero : (fuel : ℕ) → ZeroIsSmall → generate_matrix fl fuel zero_hash ≡ none
  unfolding generate_matrix
  generate_matrix-zero fuel small = rw seeded-zero (draw_until-zero fuel small)

  abbrev DrawsPlain : ℕ → Type 0
  DrawsPlain version = (version ≡ 1) ⊎ (version ≡ 3) ⊎ (version ≡ 4)

  matrices-zero :
      (fuel version : ℕ)
      → ZeroIsSmall
      → DrawsPlain version
      → matrices fl fuel version zero_hash ≡ none
  unfolding matrices
  matrices-zero fuel version small (inl one) = rw one (rw (generate_matrix-zero fuel small) refl)
  matrices-zero fuel version small (inr (inl three)) =
      rw three (rw (generate_matrix-zero fuel small) refl)
  matrices-zero fuel version small (inr (inr four)) =
      rw four (rw (generate_matrix-zero fuel small) refl)

  -- For a header whose hash is zero, of a version that draws a matrix of full rank from it (version
  -- 1, 3 or 4), no number of rounds is enough for `NewState`: it does not return.
  pub new_state_stuck :
      {R : Type 0} (htnd : Htnd R) (fuel : ℕ) (header : PowHeader R)
      → ZeroIsSmall
      → (prev_hash htnd header).1 ≡ zero_hash
      → (header.version ≡ 1) ⊎ (header.version ≡ 3) ⊎ (header.version ≡ 4)
      → new_state fl htnd fuel header ≡ none
  unfolding new_state
  new_state_stuck htnd fuel header small e version =
      let stuck : matrices fl fuel header.version (prev_hash htnd header).1 ≡ none =
        rw e (matrices-zero fuel header.version small version) in
      rw (stuck, new_state) refl
