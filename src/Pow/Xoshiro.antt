-- ===== src/Pow/Xoshiro.antt =====
-- `xoShiRo256PlusPlus` of src/pow/xoshiro.go: the generator that a matrix is drawn from.
use Prim.Native.Nat.{bit_xor}
use htn_stratum_bridge.Prelude.{
  ℕ, ◌+◌, ◌-◌, ◌*◌, ◌/◌, ◌%◌, ◌^◌, ◌≡◌, refl, Bytes, take, drop, le_value,
}

pub record Xoshiro : Type 0 where
  pub s0 : ℕ
  pub s1 : ℕ
  pub s2 : ℕ
  pub s3 : ℕ

-- `binary.LittleEndian.Uint64(hashArray[i:i+8])`
abbrev pub word_at : ℕ → Bytes → ℕ
word_at i hash = le_value (take 8 (drop i hash))

-- `newxoShiRo256PlusPlus`
unfoldable pub seeded : Bytes → Xoshiro
unfolding le_value
seeded hash = record {
  s0 = word_at 0 hash;
  s1 = word_at 8 hash;
  s2 = word_at 16 hash;
  s3 = word_at 24 hash;
}

-- `bits.RotateLeft64`
abbrev pub rotate_left : ℕ → ℕ → ℕ
rotate_left x k = x * 2 ^ k % 2 ^ 64 + x / 2 ^ (64 - k)

-- `Uint64`: the state after it, and the number.
unfoldable pub next_word : Xoshiro → Xoshiro × ℕ
next_word x =
    let res = (rotate_left ((x.s0 + x.s3) % 2 ^ 64) 23 + x.s0) % 2 ^ 64 in
    let t = x.s1 * 2 ^ 17 % 2 ^ 64 in
    let s2 = bit_xor x.s2 x.s0 in
    let s3 = bit_xor x.s3 x.s1 in
    let s1 = bit_xor x.s1 s2 in
    let s0 = bit_xor x.s0 s3 in
    (record { s0 = s0; s1 = s1; s2 = bit_xor s2 t; s3 = rotate_left s3 45 }, res)

abbrev pub zero_state : Xoshiro
zero_state = record { s0 = 0; s1 = 0; s2 = 0; s3 = 0 }

-- The state of zeros is a fixed point.
pub next_word-zero_state : next_word zero_state ≡ (zero_state, 0)
unfolding next_word
next_word-zero_state = refl
