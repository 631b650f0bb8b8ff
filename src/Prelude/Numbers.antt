-- ===== src/Prelude/Numbers.antt =====
-- `strconv.ParseInt(s, 10, 0)`, which is `strconv.Atoi`, and `strconv.ParseUint(s, 16, 64)`.
use Prim.Native.Nat.{ℕ, zero, suc, ◌+◌, ◌-◌, ◌*◌, ◌/◌, ◌%◌, ◌^◌, ◌≤◌, ◌<◌}
use mathlib.Core.Path.{◌≡◌, ap, ◌∙◌}
use mathlib.Core.Logic.{inl, inr}
use mathlib.Core.Bool.{◌&&◌}
use mathlib.Core.Option.{Option, none, some}
use mathlib.Core.List.{[], ◌∷◌}
use native.Mathlib.Omega.{arith}
use htn_stratum_bridge.Prelude.Tests.{leb, ltb, nat_eq, if◌then◌else◌, Bool-cases, lt→ltb, tests}
use htn_stratum_bridge.Prelude.Text.{Bytes}
use htn_stratum_bridge.Prelude.Int.{ℤ, pos, negsuc, neg}
use htn_stratum_bridge.Prelude.Encode.{hex_digit, decimal, decimal_from}

-- The value of a run of digits in a base, from the left; `none` for any other byte.
unfoldable pub digits_value : (ℕ → Option ℕ) → ℕ → ℕ → Bytes → Option ℕ
digits_value digit base acc [] = some acc
digits_value digit base acc (c ∷ s) = elim (digit c) [
  | none ↦ none
  | some d ↦ digits_value digit base (acc * base + d) s
]

abbrev pub dec_digit : ℕ → Option ℕ
dec_digit c = if leb b'0' c && leb c b'9' then some (c - b'0') else none

-- The digits, at least one, of a magnitude.
abbrev pub magnitude : (ℕ → Option ℕ) → ℕ → Bytes → Option ℕ
magnitude digit base [] = none
magnitude digit base (c ∷ s) = digits_value digit base 0 (c ∷ s)

abbrev pub in_range : ℤ → Option ℤ
in_range (pos n) = if ltb n (2 ^ 63) then some (pos n) else none
in_range (negsuc n) = if ltb n (2 ^ 63) then some (negsuc n) else none

abbrev pub signed : (ℕ → ℤ) → Option ℕ → Option ℤ
signed sign none = none
signed sign (some n) = in_range (sign n)

-- `none` is a syntax or a range error.
unfoldable pub parse_int : Bytes → Option ℤ
unfolding digits_value
parse_int [] = none
parse_int (c ∷ s) =
    if nat_eq c b'+'
    then signed pos (magnitude dec_digit 10 s)
    else if nat_eq c b'-'
    then signed neg (magnitude dec_digit 10 s)
    else signed pos (magnitude dec_digit 10 (c ∷ s))

abbrev pub in_range64 : Option ℕ → Option ℕ
in_range64 none = none
in_range64 (some n) = if ltb n (2 ^ 64) then some n else none

unfoldable pub parse_hex64 : Bytes → Option ℕ
unfolding digits_value
parse_hex64 s = in_range64 (magnitude hex_digit 16 s)

digits_value-digit :
    (d n : ℕ) (s : Bytes)
    → d < 10
    → digits_value dec_digit 10 n ((b'0' + d) ∷ s) ≡ digits_value dec_digit 10 (n * 10 + d) s
unfolding digits_value
digits_value-digit d n s h = ground arith

-- What is printed before `acc` is read back first.
digits_value-decimal_from :
    (fuel n : ℕ) (acc : Bytes)
    → n < fuel
    → digits_value dec_digit 10 0 (decimal_from fuel n acc) ≡ digits_value dec_digit 10 n acc
unfolding decimal_from
digits_value-decimal_from zero n acc h = elim h [ ]
digits_value-decimal_from (suc fuel) n acc h = elim (Bool-cases (ltb n 10)) [
  | inl small ↦ rw small (digits_value-digit n 0 acc (omega tests) ∙ same (omega arith))
  | inr big ↦ rw big (
      digits_value-decimal_from fuel (n / 10) ((b'0' + n % 10) ∷ acc) (omega tests)
      ∙ digits_value-digit (n % 10) (n / 10) acc (omega arith)
      ∙ same (omega arith))
]
  where
    same : {m : ℕ} → m ≡ n → digits_value dec_digit 10 m acc ≡ digits_value dec_digit 10 n acc
    same e = ap (λ k. digits_value dec_digit 10 k acc) e

-- A printed number begins with a digit.
abbrev BeginsWithDigit : Bytes → Type 0
BeginsWithDigit [] = ⊥
BeginsWithDigit (c ∷ s) = (b'0' ≤ c) × (c ≤ b'9')

decimal_from-begins :
    (fuel n : ℕ) (acc : Bytes) → n < fuel → BeginsWithDigit (decimal_from fuel n acc)
unfolding decimal_from
decimal_from-begins zero n acc h = elim h [ ]
decimal_from-begins (suc fuel) n acc h = elim (Bool-cases (ltb n 10)) [
  | inl small ↦ rw small (omega tests)
  | inr big ↦ rw big (decimal_from-begins fuel (n / 10) ((b'0' + n % 10) ∷ acc) (omega tests))
]

parse_int-digits :
    (s : Bytes) → BeginsWithDigit s → parse_int s ≡ signed pos (digits_value dec_digit 10 0 s)
unfolding parse_int
parse_int-digits [] h = elim h [ ]
parse_int-digits (c ∷ s) h = ground arith

-- `strconv.ParseInt` reads back what `fmt.Sprintf("%d")` prints, for any `int64` that is not
-- negative.
pub parse_int-decimal : (n : ℕ) → n < 2 ^ 63 → parse_int (decimal n) ≡ some (pos n)
unfolding decimal digits_value
parse_int-decimal n h =
    parse_int-digits (decimal n) (decimal_from-begins (suc n) n [] (omega arith))
    ∙ rw (digits_value-decimal_from (suc n) n [] (omega arith), lt→ltb n (2 ^ 63) h)
