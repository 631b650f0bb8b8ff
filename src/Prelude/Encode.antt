-- ===== src/Prelude/Encode.antt =====
-- encoding/binary, encoding/hex, strconv and strings, as far as the bridge calls them, on lists of
-- bytes.
use Prim.Native.Nat.{ℕ, zero, suc, ◌+◌, ◌-◌, ◌*◌, ◌/◌, ◌%◌, ◌^◌, ◌<◌}
use mathlib.Core.Path.{◌≡◌, refl, ap, ◌∙◌}
use mathlib.Core.Bool.{◌&&◌}
use mathlib.Core.Option.{Option, none, some}
use mathlib.Core.List.{[], ◌∷◌, reverse, reverse-reverse}
use native.Mathlib.Nat.{pow-suc}
use native.Mathlib.Omega.{arith}
use htn_stratum_bridge.Prelude.Tests.{leb, ltb, if◌then◌else◌}
use htn_stratum_bridge.Prelude.Lists.{length, length-reverse, All}
use htn_stratum_bridge.Prelude.Text.{Bytes}
use htn_stratum_bridge.Prelude.Int.{ℤ, pos, negsuc}

-- `binary.BigEndian.PutUint64` and the like, for `k` bytes, least significant first.
unfoldable pub put_le : ℕ → ℕ → Bytes
put_le zero n = []
put_le (suc k) n = n % 256 ∷ put_le k (n / 256)

-- The number that `k` little-endian bytes stand for.
unfoldable pub le_value : Bytes → ℕ
le_value [] = 0
le_value (b ∷ bs) = b + 256 * le_value bs

abbrev pub put_be : ℕ → ℕ → Bytes
put_be k n = reverse (put_le k n)

abbrev pub be_value : Bytes → ℕ
be_value bs = le_value (reverse bs)

abbrev pub IsBytes : Bytes → Type 0
IsBytes = All (λ b. b < 256)

pub length-put_le : (k n : ℕ) → length (put_le k n) ≡ k
unfolding put_le
length-put_le zero n = refl
length-put_le (suc k) n = ap suc (length-put_le k (n / 256))

pub le_value-lt : (bs : Bytes) → IsBytes bs → le_value bs < 256 ^ length bs
unfolding le_value
le_value-lt [] h = omega arith
le_value-lt (b ∷ bs) h = omega (arith, le_value-lt bs h.1, pow-suc 256 (length bs))

pub le_value-put_le : (k n : ℕ) → n < 256 ^ k → le_value (put_le k n) ≡ n
unfolding le_value put_le
le_value-put_le zero n h = omega arith
le_value-put_le (suc k) n h =
    omega (arith, pow-suc 256 k, le_value-put_le k (n / 256) (omega (arith, pow-suc 256 k)))

pub be_value-put_be : (k n : ℕ) → n < 256 ^ k → be_value (put_be k n) ≡ n
be_value-put_be k n h = ap le_value (reverse-reverse (put_le k n)) ∙ le_value-put_le k n h

pub length-put_be : (k n : ℕ) → length (put_be k n) ≡ k
length-put_be k n = length-reverse (put_le k n) ∙ length-put_le k n

-- The value of a hexadecimal digit.
abbrev pub hex_digit : ℕ → Option ℕ
hex_digit c =
    if leb b'0' c && leb c b'9'
    then some (c - b'0')
    else if leb b'a' c && leb c b'f'
    then some (c - b'a' + 10)
    else if leb b'A' c && leb c b'F'
    then some (c - b'A' + 10)
    else none

-- `hex.DecodeString`; `none` is an error.
unfoldable pub hex_decode : Bytes → Option Bytes
hex_decode [] = some []
hex_decode (a ∷ []) = none
hex_decode (a ∷ b ∷ s) =
    let rest = hex_decode s in
    elim (hex_digit a) [
      | none ↦ none
      | some x ↦ elim (hex_digit b) [
        | none ↦ none
        | some y ↦ elim rest [ none ↦ none | some r ↦ some ((x * 16 + y) ∷ r) ]
      ]
    ]

-- The decimal digits of a number, on fuel; a number has fewer digits than its successor counts.
unfoldable pub decimal_from : ℕ → ℕ → Bytes → Bytes
decimal_from zero n acc = acc
decimal_from (suc fuel) n acc =
    let more = decimal_from fuel (n / 10) ((b'0' + n % 10) ∷ acc) in
    if ltb n 10 then (b'0' + n) ∷ acc else more

unfoldable pub decimal : ℕ → Bytes
unfolding decimal_from
decimal n = decimal_from (suc n) n []

-- `%d` of an `int64`.
unfoldable pub show_int : ℤ → Bytes
unfolding decimal
show_int (pos n) = decimal n
show_int (negsuc n) = b'-' ∷ decimal (suc n)
