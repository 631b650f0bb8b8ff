-- ===== src/Pow/Multiply.antt =====
-- The products of a matrix with a hash in src/pow/heavyhash.go. The last hash of each is taken by a
-- function `finish`, of the package hashes of HTND.
use Prim.Native.Nat.{bit_or, bit_xor}
use mathlib.Core.List.{foldl}
use htn_stratum_bridge.Prelude.{
  ℕ, ◌+◌, ◌*◌, ◌/◌, ◌%◌, ◌^◌, Option, none, some, List, [], ◌∷◌, Bytes, map, if◌then◌else◌,
}
use htn_stratum_bridge.Pow.Floats.{
  FloatOps, complex_non_linear, for_complex, transform_factor, scale_down,
}

-- The nibbles of the bytes, the high one first.
unfoldable pub nibbles_of : Bytes → List ℕ
nibbles_of [] = []
nibbles_of (b ∷ bs) = b / 16 ∷ b % 16 ∷ nibbles_of bs

-- `res[i] = hashBytes[i] ^ f(product[2*i], product[2*i+1])`
unfoldable pub xor_pairs {ℓ} : {A : Type ℓ} → (A → A → ℕ) → Bytes → List A → Bytes
xor_pairs f (b ∷ bs) (x ∷ y ∷ product) = bit_xor b (f x y) ∷ xor_pairs f bs product
xor_pairs f bs product = []

-- `sum += mat[i][j] * vector[j]` in `uint16`.
unfoldable pub dot16 : List ℕ → List ℕ → ℕ → ℕ
dot16 (m ∷ row) (v ∷ vector) sum = dot16 row vector ((sum + m * v % 2 ^ 16) % 2 ^ 16)
dot16 row vector sum = sum

-- `product` of `bHeavyHash`.
unfoldable pub heavy_product : List (List ℕ) → List ℕ → List ℕ
unfolding dot16
heavy_product mat vector = map (λ row. dot16 row vector 0 / 2 ^ 10) mat

-- `byte(high<<4) | byte(low)`, of `uint16`.
abbrev pub join_nibbles : ℕ → ℕ → ℕ
join_nibbles high low = bit_or (high * 16 % 2 ^ 16 % 256) (low % 256)

-- `bHeavyHash`
unfoldable pub heavy_hash : (Bytes → Bytes) → List (List ℕ) → Bytes → Bytes
unfolding nibbles_of xor_pairs heavy_product
heavy_hash finish mat hash =
    finish (xor_pairs join_nibbles hash (heavy_product mat (nibbles_of hash)))

module _ {F : Type 0} (fl : FloatOps F) where
  -- `product[i] += ComplexNonLinear(forComplex)` along a row. Where the loop of `scale_down` does
  -- not end, neither does the product.
  unfoldable pub complex_dot : F → ℕ → List ℕ → List ℕ → F → Option F
  complex_dot limit fuel (m ∷ row) (v ∷ vector) sum =
      elim (scale_down fl limit fuel (fl.mul (fl.of_nat m) (fl.of_nat v))) [
        | none ↦ none
        | some x ↦ complex_dot limit fuel row vector (fl.add sum (complex_non_linear fl x))
      ]
  complex_dot limit fuel row vector sum = some sum

  unfoldable pub complex_product : F → ℕ → List (List ℕ) → List ℕ → Option (List F)
  complex_product limit fuel [] vector = some []
  complex_product limit fuel (row ∷ mat) vector =
      elim (complex_dot limit fuel row vector (fl.of_nat 0)) [
        | none ↦ none
        | some x ↦ elim (complex_product limit fuel mat vector) [
          | none ↦ none
          | some xs ↦ some (x ∷ xs)
        ]
      ]

  -- `(high ^ low) & 0xFF`, of the products scaled by 0.00000001 as `uint32`.
  abbrev pub combine : F → F → ℕ
  combine x y =
      let scaled = λ (v : F). fl.to_uint32 (fl.mul v (fl.decimal 1 8)) in
      bit_xor (scaled x) (scaled y) % 256

  abbrev pub hoohash : F → (Bytes → Bytes) → ℕ → List (List ℕ) → Bytes → Option Bytes
  hoohash limit finish fuel mat hash = elim (complex_product limit fuel mat (nibbles_of hash)) [
    | none ↦ none
    | some product ↦ some (finish (xor_pairs combine hash product))
  ]

  -- `HoohashMatrixMultiplicationV1`
  unfoldable pub hoohash_v1 : (Bytes → Bytes) → ℕ → List (List ℕ) → Bytes → Option Bytes
  unfolding nibbles_of xor_pairs complex_product
  hoohash_v1 = hoohash (fl.of_nat 16)

  -- `HoohashMatrixMultiplicationV101`
  unfoldable pub hoohash_v101 : (Bytes → Bytes) → ℕ → List (List ℕ) → Bytes → Option Bytes
  unfolding nibbles_of xor_pairs complex_product
  hoohash_v101 = hoohash (fl.of_nat 14)

  -- What an entry of the matrix adds to the product in `HoohashMatrixMultiplicationV110`.
  abbrev pub term_v110 : ℕ → F → F → F → F → ℕ → Option F
  term_v110 fuel hash_mod nonce_mod sw m v =
      if fl.le sw (fl.decimal 2 2)
      then (elim (for_complex fl fuel
          (fl.add (fl.mul (fl.mul m hash_mod) (fl.of_nat v)) nonce_mod)) [
            | none ↦ none
            | some x ↦ some (fl.mul (fl.mul x (fl.of_nat v)) (fl.of_nat 1234))
          ])
      else some (fl.mul (fl.mul m (fl.decimal 1 4)) (fl.of_nat v))

  -- Along a row, over `sw` and the entry of the product.
  unfoldable pub dot_v110 : ℕ → F → F → List F → List ℕ → F → F → Option (F × F)
  unfolding for_complex transform_factor
  dot_v110 fuel hash_mod nonce_mod (m ∷ row) (v ∷ vector) sw sum =
      elim (term_v110 fuel hash_mod nonce_mod sw m v) [
        | none ↦ none
        | some x ↦
            let sum' = fl.add sum x in
            dot_v110 fuel hash_mod nonce_mod row vector (transform_factor fl sum') sum'
      ]
  dot_v110 fuel hash_mod nonce_mod row vector sw sum = some (sw, sum)

  unfoldable pub product_v110 : ℕ → F → F → List (List F) → List ℕ → F → Option (List F)
  unfolding dot_v110
  product_v110 fuel hash_mod nonce_mod [] vector sw = some []
  product_v110 fuel hash_mod nonce_mod (row ∷ mat) vector sw =
      elim (dot_v110 fuel hash_mod nonce_mod row vector sw (fl.of_nat 0)) [
        | none ↦ none
        | some (sw', sum) ↦ elim (product_v110 fuel hash_mod nonce_mod mat vector sw') [
          | none ↦ none
          | some sums ↦ some (sum ∷ sums)
        ]
      ]

  -- `uint8((uint64(product[i]) + uint64(product[i+1])) & 0xFF)`
  abbrev pub scale_pair : F → F → ℕ
  scale_pair x y = (fl.to_uint64 x + fl.to_uint64 y) % 2 ^ 64 % 256

  -- `HoohashMatrixMultiplicationV110`; `words` are those of `Uint32Array`.
  unfoldable pub hoohash_v110 :
      (Bytes → List ℕ) → (Bytes → Bytes) → ℕ → List (List F) → Bytes → ℕ → Option Bytes
  unfolding nibbles_of xor_pairs product_v110
  hoohash_v110 words finish fuel mat hash nonce =
      let hash_mod = fl.of_nat (foldl bit_xor 0 (words hash)) in
      let nonce_mod = fl.of_nat (nonce % 256) in
      elim (product_v110 fuel hash_mod nonce_mod mat (nibbles_of hash) (fl.of_nat 0)) [
        | none ↦ none
        | some product ↦ some (finish (xor_pairs scale_pair hash product))
      ]
