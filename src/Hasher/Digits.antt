-- ===== src/Hasher/Digits.antt =====
-- The hexadecimal texts of src/htnstratum/hasher.go, and what is read from them.
use native.Mathlib.Nat.{pow-suc}
use mathlib.Core.List.{append-nil, reverse-cons}
use htn_stratum_bridge.Prelude.{
  ℕ, zero, suc, ◌+◌, ◌-◌, ◌*◌, ◌/◌, ◌%◌, ◌^◌, ◌<◌, ◌≤◌, ◌≡◌, refl, ap, sym, ◌∙◌, some, [], ◌∷◌,
  ◌++◌, append_assoc, Bytes, IsBytes, length, reverse, ltb, ltb-false, tests, Bool-cases, inl, inr,
  le_value, hex_digit, hex_decode, digits_value, arith,
}
use htn_stratum_bridge.Hasher.{hex_char, hex_from, show_hex, zeros, show_hex16}

hex_digit-hex_char : (d : ℕ) → d < 16 → hex_digit (hex_char d) ≡ some d
hex_digit-hex_char d h = ground arith

-- The `k` lowest digits of a number, the highest first.
abbrev pub digits : ℕ → ℕ → Bytes
digits zero n = []
digits (suc k) n = digits k (n / 16) ++ hex_char (n % 16) ∷ []

digits-zeros : (k : ℕ) → digits k 0 ≡ zeros k
unfolding zeros
digits-zeros zero = refl
digits-zeros (suc k) = ap (λ s. s ++ b'0' ∷ []) (digits-zeros k) ∙ shift k
  where
    shift : (k : ℕ) → zeros k ++ b'0' ∷ [] ≡ b'0' ∷ zeros k
    shift zero = refl
    shift (suc k) = ap (λ s. b'0' ∷ s) (shift k)

-- The step to a number of more digits.
hex_from-later :
    (fuel k n : ℕ) (acc : Bytes)
    → n < suc fuel
    → n < 16 ^ suc k
    → 16 ≤ n
    → let acc' = hex_char (n % 16) ∷ acc in
      let text = hex_from fuel (n / 16) acc' in
      ((k' : ℕ)
        → n / 16 < 16 ^ suc k'
        → zeros (suc k' + length acc' - length text) ++ text ≡ digits (suc k') (n / 16) ++ acc')
      → zeros (suc k + length acc - length text) ++ text ≡ digits (suc k) n ++ acc
hex_from-later fuel zero n acc h b big ih = absurd (omega (arith, pow-suc 16 0))
hex_from-later fuel (suc k) n acc h b big ih =
    let text = hex_from fuel (n / 16) (hex_char (n % 16) ∷ acc) in
    let width : suc (suc k) + length acc - length text ≡ suc k + suc (length acc) - length text =
      omega arith in
    rw width (ih k (omega (arith, pow-suc 16 (suc k))))
    ∙ sym (append_assoc (digits (suc k) (n / 16)) (hex_char (n % 16) ∷ []) acc)

-- Padded to a width, the text of a number has exactly that many digits.
hex_from-digits :
    (fuel k n : ℕ) (acc : Bytes)
    → n < fuel
    → n < 16 ^ suc k
    → zeros (suc k + length acc - length (hex_from fuel n acc)) ++ hex_from fuel n acc
      ≡ digits (suc k) n ++ acc
unfolding hex_from
hex_from-digits zero k n acc h b = elim h [ ]
hex_from-digits (suc fuel) k n acc h b = elim (Bool-cases (ltb n 16)) [
  | inl small ↦
      let width : suc k + length acc - suc (length acc) ≡ k = omega arith in
      let high : n / 16 ≡ 0 = omega tests in
      let low : n % 16 ≡ n = omega tests in
      rw (small, width, high, low)
        (rw (digits-zeros k) (sym (append_assoc (zeros k) (hex_char n ∷ []) acc)))
  | inr big ↦ rw big (
      hex_from-later fuel k n acc (omega tests) b (ltb-false n 16 big)
        (λ k' b'. hex_from-digits fuel k' (n / 16) (hex_char (n % 16) ∷ acc) (omega tests) b'))
]

-- `%016x` of a number of 64 bits.
pub show_hex16-digits : (n : ℕ) → n < 16 ^ 16 → show_hex16 n ≡ digits 16 n
unfolding show_hex16 show_hex
show_hex16-digits n h = hex_from-digits (suc n) 15 n [] (omega arith) h ∙ append-nil (digits 16 n)

-- Two digits for each byte.
abbrev pub hex_text : Bytes → Bytes
hex_text [] = []
hex_text (b ∷ bs) = hex_char (b / 16) ∷ hex_char (b % 16) ∷ hex_text bs

hex_text-append : (xs ys : Bytes) → hex_text (xs ++ ys) ≡ hex_text xs ++ hex_text ys
hex_text-append [] ys = refl
hex_text-append (x ∷ xs) ys =
    ap (λ s. hex_char (x / 16) ∷ hex_char (x % 16) ∷ s) (hex_text-append xs ys)

abbrev pub double : ℕ → ℕ
double zero = 0
double (suc n) = suc (suc (double n))

pub digits-le_value :
    (bs : Bytes) → IsBytes bs → digits (double (length bs)) (le_value bs) ≡ hex_text (reverse bs)
unfolding le_value
digits-le_value [] h = refl
digits-le_value (b ∷ bs) h =
    let n = le_value bs in
    let high : (b + 256 * n) / 16 / 16 ≡ n = omega arith in
    let middle : (b + 256 * n) / 16 % 16 ≡ b / 16 = omega arith in
    let low : (b + 256 * n) % 16 ≡ b % 16 = omega arith in
    rw (high, middle, low, reverse-cons b bs, hex_text-append (reverse bs) (b ∷ []))
      (append_assoc (digits (double (length bs)) n) (hex_char (b / 16) ∷ [])
          (hex_char (b % 16) ∷ [])
        ∙ ap (λ s. s ++ hex_char (b / 16) ∷ hex_char (b % 16) ∷ []) (digits-le_value bs h.1))

hex_decode-pair :
    (a b x y : ℕ) (s rest : Bytes)
    → hex_digit a ≡ some x
    → hex_digit b ≡ some y
    → hex_decode s ≡ some rest
    → hex_decode (a ∷ b ∷ s) ≡ some ((x * 16 + y) ∷ rest)
unfolding hex_decode
hex_decode-pair a b x y s rest ha hb e = ground arith

-- What `hex.DecodeString` reads from a text of two digits for each byte, and something after it.
pub hex_decode-hex_text :
    (bs rest s : Bytes)
    → IsBytes bs
    → hex_decode s ≡ some rest
    → hex_decode (hex_text bs ++ s) ≡ some (bs ++ rest)
hex_decode-hex_text [] rest s h e = e
hex_decode-hex_text (b ∷ bs) rest s h e =
    let same : b / 16 * 16 + b % 16 ≡ b = omega arith in
    hex_decode-pair (hex_char (b / 16)) (hex_char (b % 16)) (b / 16) (b % 16) (hex_text bs ++ s)
      (bs ++ rest) (hex_digit-hex_char (b / 16) (omega arith))
      (hex_digit-hex_char (b % 16) (omega arith)) (hex_decode-hex_text bs rest s h.1 e)
    ∙ ap (λ c. some (c ∷ bs ++ rest)) same

digits_value-hex_char :
    (d n : ℕ) (s : Bytes)
    → d < 16
    → digits_value hex_digit 16 n (hex_char d ∷ s) ≡ digits_value hex_digit 16 (n * 16 + d) s
unfolding digits_value
digits_value-hex_char d n s h = ground (arith, hex_digit-hex_char d h)

-- What is printed before `acc` is read back first.
digits_value-hex_from :
    (fuel n : ℕ) (acc : Bytes)
    → n < fuel
    → digits_value hex_digit 16 0 (hex_from fuel n acc) ≡ digits_value hex_digit 16 n acc
unfolding hex_from
digits_value-hex_from zero n acc h = elim h [ ]
digits_value-hex_from (suc fuel) n acc h = elim (Bool-cases (ltb n 16)) [
  | inl small ↦ rw small (digits_value-hex_char n 0 acc (omega tests) ∙ same (omega arith))
  | inr big ↦ rw big (
      digits_value-hex_from fuel (n / 16) (hex_char (n % 16) ∷ acc) (omega tests)
      ∙ digits_value-hex_char (n % 16) (n / 16) acc (omega arith)
      ∙ same (omega arith))
]
  where
    same : {m : ℕ} → m ≡ n → digits_value hex_digit 16 m acc ≡ digits_value hex_digit 16 n acc
    same e = ap (λ k. digits_value hex_digit 16 k acc) e

pub digits_value-show_hex : (n : ℕ) → digits_value hex_digit 16 0 (show_hex n) ≡ some n
unfolding show_hex digits_value
digits_value-show_hex n = digits_value-hex_from (suc n) n [] (omega arith)
