-- ===== src/Pow/Tests.antt =====
-- Runs of the proof of work with numbers in thousandths in place of floats.
use htn_stratum_bridge.Prelude.{
  ℕ, ◌+◌, ◌*◌, ◌/◌, ◌^◌, ◌≡◌, ◌≢◌, ◌↔◌, refl, inl, true, false, none, some, List, [], ◌∷◌, ◌++◌,
  Bytes, map, pos, leb_ℤ, codes, arith,
}
use htn_stratum_bridge.Share.Tally.{to_big}
use htn_stratum_bridge.Pow.Xoshiro.{Xoshiro, next_word}
use htn_stratum_bridge.Pow.Fixed.{fixed, pivotal}
use htn_stratum_bridge.Pow.Matrix.{
  nibbles, draw_row, draw_rows, draw_until, find_pivot, eliminate, rank_from, compute_rank,
  generate_matrix, generate_hoohash_matrix_v110,
}
use htn_stratum_bridge.Pow.Multiply.{
  nibbles_of, xor_pairs, dot16, heavy_product, heavy_hash, hoohash_v1, hoohash_v101,
}
use htn_stratum_bridge.Pow.State.{
  Htnd, PowHeader, State, zero_bytes, zero_hash, prev_hash, matrices, new_state, pow_input,
  pow_value, increment_nonce, check_proof_of_work,
}
use htn_stratum_bridge.Pow.Exact.{dot}
use htn_stratum_bridge.Pow.Stuck.{new_state_stuck}
use htn_stratum_bridge.Pow.Check.{compares, check_proof_of_work_iff}
use htn_stratum_bridge.Pow.Nonce.{increment_nonce-new_state}
use htn_stratum_bridge.Pow.Shape.{IsSquare, generate_matrix_lem}
use htn_stratum_bridge.Pow.Shrink.{IsRounded, hoohash_returns}

-- The published first numbers of the generator from 1, 2, 3, 4.
abbrev first : Xoshiro
first = record { s0 = 1; s1 = 2; s2 = 3; s3 = 4 }

generator_test : ((next_word first).1 ≡ 41943041) × ((next_word (next_word first).0).1 ≡ 58720359)
unfolding next_word
generator_test = (refl, refl)

abbrev padded : Bytes → Bytes
padded b = b ++ zero_bytes 30

abbrev htnd : Htnd (Unit {0})
htnd = record {
  compact_to_big = λ bits. pos bits;
  header_hash = λ h. zero_hash;
  write_int64 = λ t. [];
  write_uint64 = λ n. n ∷ [];
  pow_hash = λ b. 0x12 ∷ 0x34 ∷ [];
  blake3_hash = λ b. b;
  heavy_hash_writer = padded;
  uint32_array = λ h. 1 ∷ [];
  hash_from_string = λ s. some (padded (0x12 ∷ 0x34 ∷ []));
  pow_integrity_min_version = 0;
}

abbrev header : ℕ → PowHeader (Unit {0})
header version = record {
  version = version;
  bits = 7;
  time_in_milliseconds = pos 5;
  nonce = 9;
  rest = tt;
}

new_state_stuck_example : new_state fixed htnd 1000 (header 1) ≡ none
unfolding prev_hash
new_state_stuck_example = new_state_stuck fixed htnd 1000 (header 1) refl refl (inl refl)

abbrev state : State ℕ
state = record {
  mat =
      (1 ∷ 2 ∷ 3 ∷ 4 ∷ [])
      ∷ (15 ∷ 15 ∷ 15 ∷ 15 ∷ [])
      ∷ (0 ∷ 0 ∷ 0 ∷ 0 ∷ [])
      ∷ (9 ∷ 9 ∷ 9 ∷ 9 ∷ [])
      ∷ [];
  float_mat = [];
  timestamp = pos 5;
  nonce = 9;
  target = pos 20000;
  prev_header = zero_hash;
  block_version = 1;
}

check_proof_of_work_iff_example :
    let hash = padded (0x12 ∷ 0x34 ∷ []) in
    (check_proof_of_work fixed htnd 0 state (codes "1234") false ≡ some true)
    ↔ (leb_ℤ (pos (to_big hash)) state.target ≡ true)
      × (compares htnd state false ≡ true → (hash ≡ hash) × (hash ≢ zero_hash))
unfolding pow_value pow_input heavy_hash nibbles_of xor_pairs heavy_product dot16
check_proof_of_work_iff_example =
    let hash = padded (0x12 ∷ 0x34 ∷ []) in
    check_proof_of_work_iff fixed htnd 0 state (codes "1234") false hash hash refl refl
      (omega arith, refl) (omega arith, refl)

abbrev drawn : State ℕ
drawn = elim (new_state fixed htnd 0 (header 5)) [ none ↦ state | some s ↦ s ]

increment_nonce-new_state_example :
    new_state fixed htnd 0 (record (header 5) { nonce = 10 }) ≡ some (increment_nonce drawn)
unfolding new_state matrices generate_hoohash_matrix_v110
increment_nonce-new_state_example = increment_nonce-new_state fixed htnd 0 (header 5) drawn refl

fixed-IsRounded : IsRounded fixed
fixed-IsRounded = record {
  product = λ m v hm hv.
      let same : m * 1000 * (v * 1000) ≡ 1000000 * (m * v) = grind arith in rw same (omega arith);
  shorter = λ n k small few. ground arith;
  tenth_mono = λ x y le. ground arith;
  le_trans = λ x y z p q. ground arith;
  le_nat = λ m n le few. ground arith;
  not_lt = λ x y le. ground arith;
}

abbrev small : List (List ℕ)
small = (1 ∷ 15 ∷ []) ∷ (15 ∷ 7 ∷ []) ∷ []

hoohash_returns_example :
    ((r : Bytes) × (hoohash_v1 fixed padded 3 small (0xff ∷ []) ≡ some r))
    × ((r : Bytes) × (hoohash_v101 fixed padded 3 small (0xff ∷ []) ≡ some r))
hoohash_returns_example =
    hoohash_returns fixed padded 0 small (0xff ∷ []) fixed-IsRounded (omega arith) (omega arith)

-- Every entry counts as a pivot.
abbrev seed : Bytes
seed = 1 ∷ 2 ∷ 3 ∷ zero_bytes 29

abbrev generated : List (List ℕ)
generated = elim (generate_matrix pivotal 1 seed) [ none ↦ [] | some mat ↦ mat ]

generate_matrix_lem_example :
    (generate_matrix pivotal 3 seed ≡ some generated)
    × ((compute_rank pivotal generated ≡ 64) × IsSquare generated)
    × (heavy_hash padded generated (0xff ∷ 0x12 ∷ [])
        ≡ padded (
            xor_pairs
              (λ x y. x * 16 + y)
              (0xff ∷ 0x12 ∷ [])
              (map (λ row. dot row (nibbles_of (0xff ∷ 0x12 ∷ [])) / 2 ^ 10) generated)))
unfolding generate_matrix draw_until compute_rank rank_from find_pivot eliminate draw_rows draw_row
    nibbles next_word
generate_matrix_lem_example =
    generate_matrix_lem pivotal 1 3 seed (0xff ∷ 0x12 ∷ []) generated padded refl (omega arith)
      (omega arith)
