-- ===== src/Pow/Exact.antt =====
-- `bHeavyHash` of src/pow/heavyhash.go: its sums in 16 bits do not wrap.
use Prim.Native.Nat.{bit_or, bit_xor}
use native.Mathlib.Nat.{zero-add}
use htn_stratum_bridge.Prelude.{
  ℕ, zero, suc, ◌+◌, ◌*◌, ◌/◌, ◌%◌, ◌^◌, ◌<◌, ◌≤◌, ◌≡◌, refl, ap, ◌∙◌, Bool, true, ◌&&◌, List, [],
  ◌∷◌, Bytes, IsBytes, map, All, length, nat_eq, nat_eq_iff, arith,
}
use htn_stratum_bridge.Pow.Multiply.{
  nibbles_of, xor_pairs, dot16, heavy_product, join_nibbles, heavy_hash,
}

abbrev pub IsNibble : ℕ → Type 0
IsNibble n = n < 16

-- A row has nibbles, at most 64 of them.
abbrev pub IsRow : List ℕ → Type 0
IsRow row = All IsNibble row × (length row ≤ 64)

abbrev pub dot : List ℕ → List ℕ → ℕ
dot (m ∷ row) (v ∷ vector) = m * v + dot row vector
dot row vector = 0

pub nibbles_of-IsNibble : (hash : Bytes) → IsBytes hash → All IsNibble (nibbles_of hash)
unfolding nibbles_of
nibbles_of-IsNibble [] h = tt
nibbles_of-IsNibble (b ∷ hash) h = (omega arith, (omega arith, nibbles_of-IsNibble hash h.1))

mul_nibbles : (m v : ℕ) → m < 16 → v < 16 → m * v ≤ 225
mul_nibbles m v hm hv = grind arith

dot-le :
    (row vector : List ℕ)
    → All IsNibble row
    → All IsNibble vector
    → dot row vector ≤ 225 * length row
dot-le [] vector hr hv = omega arith
dot-le (m ∷ row) [] hr hv = omega arith
dot-le (m ∷ row) (v ∷ vector) hr hv =
    omega (arith, mul_nibbles m v hr.0 hv.0, dot-le row vector hr.1 hv.1)

dot16-exact :
    (row vector : List ℕ) (sum : ℕ)
    → All IsNibble row
    → All IsNibble vector
    → sum + 225 * length row < 2 ^ 16
    → dot16 row vector sum ≡ sum + dot row vector
unfolding dot16
dot16-exact [] vector sum hr hv fits = omega arith
dot16-exact (m ∷ row) [] sum hr hv fits = omega arith
dot16-exact (m ∷ row) (v ∷ vector) sum hr hv fits =
    let small = mul_nibbles m v hr.0 hv.0 in
    let same : (sum + m * v % 2 ^ 16) % 2 ^ 16 ≡ sum + m * v = omega arith in
    rw same (dot16-exact row vector (sum + m * v) hr.1 hv.1 (omega arith) ∙ omega arith)

-- What the code computes for a row, and what it is without a modulus.
abbrev exact_product : List (List ℕ) → List ℕ → List ℕ
exact_product mat vector = map (λ row. dot row vector / 2 ^ 10) mat

heavy_product-exact :
    (mat : List (List ℕ)) (vector : List ℕ)
    → All IsRow mat
    → All IsNibble vector
    → heavy_product mat vector ≡ exact_product mat vector
unfolding heavy_product
heavy_product-exact [] vector hm hv = refl
heavy_product-exact (row ∷ mat) vector hm hv =
    rw (dot16-exact row vector 0 hm.0.0 hv (omega arith) ∙ zero-add (dot row vector))
      (ap (λ rest. (dot row vector / 2 ^ 10) ∷ rest) (heavy_product-exact mat vector hm.1 hv))

exact_product-IsNibble :
    (mat : List (List ℕ)) (vector : List ℕ)
    → All IsRow mat
    → All IsNibble vector
    → All IsNibble (exact_product mat vector)
exact_product-IsNibble [] vector hm hv = tt
exact_product-IsNibble (row ∷ mat) vector hm hv =
    (omega (arith, dot-le row vector hm.0.0 hv), exact_product-IsNibble mat vector hm.1 hv)

-- Over a small range, a test is checked at every value.
all_below : ℕ → (ℕ → Bool) → Bool
all_below zero p = true
all_below (suc n) p = p n && all_below n p

all_below_lem : (n : ℕ) (p : ℕ → Bool) (x : ℕ) → all_below n p ≡ true → x < n → p x ≡ true
unfolding all_below
all_below_lem zero p x h lt = absurd (omega arith)
all_below_lem (suc n) p x h lt = ground (arith, all_below_lem n p x)

bit_or_table : all_below 256 (λ n. nat_eq (bit_or (n / 16 * 16) (n % 16)) n) ≡ true
unfolding all_below
bit_or_table = refl

join_nibbles-exact : (x y : ℕ) → x < 16 → y < 16 → join_nibbles x y ≡ x * 16 + y
join_nibbles-exact x y hx hy =
    let n = x * 16 + y in
    let at_n =
      (nat_eq_iff (bit_or (n / 16 * 16) (n % 16)) n).0
        (all_below_lem 256 _ n bit_or_table (omega arith)) in
    let high : x * 16 % 2 ^ 16 % 256 ≡ n / 16 * 16 = omega arith in
    let low : y % 256 ≡ n % 16 = omega arith in rw (high, low) at_n

abbrev join_exact : ℕ → ℕ → ℕ
join_exact x y = x * 16 + y

xor_pairs-exact :
    (hash : Bytes) (product : List ℕ)
    → All IsNibble product
    → xor_pairs join_nibbles hash product ≡ xor_pairs join_exact hash product
unfolding xor_pairs
xor_pairs-exact [] product h = refl
xor_pairs-exact (b ∷ hash) [] h = refl
xor_pairs-exact (b ∷ hash) (x ∷ []) h = refl
xor_pairs-exact (b ∷ hash) (x ∷ y ∷ product) h =
    rw (join_nibbles-exact x y h.0 h.1.0)
      (ap (λ rest. bit_xor b (x * 16 + y) ∷ rest) (xor_pairs-exact hash product h.1.1))

-- For a matrix of at most 64 nibbles in a row, the heavy hash is that of exact arithmetic: no sum of
-- products reaches 2^16, and each entry of the product is a nibble, so that two of them make a byte.
pub heavy_hash-exact :
    (finish : Bytes → Bytes) (mat : List (List ℕ)) (hash : Bytes)
    → All IsRow mat
    → IsBytes hash
    → heavy_hash finish mat hash
      ≡ finish
          (xor_pairs (λ x y. x * 16 + y) hash (map (λ row. dot row (nibbles_of hash) / 2 ^ 10) mat))
unfolding heavy_hash
heavy_hash-exact finish mat hash hm hh =
    let vector = nibbles_of-IsNibble hash hh in
    ap finish (
      rw (heavy_product-exact mat (nibbles_of hash) hm vector)
        (xor_pairs-exact hash _ (exact_product-IsNibble mat (nibbles_of hash) hm vector)))
