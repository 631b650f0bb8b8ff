-- ===== src/Prelude/Utf8.antt =====
-- `strings.ToValidUTF8(s, "")`: the bytes of `s` that belong to characters.
use Prim.Native.Nat.{ℕ, zero, suc, ◌-◌, ◌≤◌}
use mathlib.Core.Bool.{Bool, true, false, ◌&&◌}
use mathlib.Core.List.{[], ◌∷◌}
use native.Mathlib.Omega.{arith}
use htn_stratum_bridge.Prelude.Tests.{leb, ltb, nat_eq, if◌then◌else◌}
use htn_stratum_bridge.Prelude.Lists.{length}
use htn_stratum_bridge.Prelude.Text.{Bytes}

abbrev between : ℕ → ℕ → Bytes → Bool
between low high [] = false
between low high (c ∷ s) = leb low c && leb c high

abbrev behind : Bytes → Bytes
behind [] = []
behind (c ∷ s) = s

-- Continuation bytes, two or three of them.
abbrev cont2 : Bytes → Bool
cont2 s = between 0x80 0xBF s && between 0x80 0xBF (behind s)

-- How many bytes the character at the start has; 0 where there is none.
abbrev pub utf8_length : ℕ → Bytes → ℕ
utf8_length c s =
    if ltb c 0x80
    then 1
    else if ltb c 0xC2
    then 0
    else if ltb c 0xE0
    then (if between 0x80 0xBF s then 2 else 0)
    else if ltb c 0xF0
    then (if between (if nat_eq c 0xE0 then 0xA0 else 0x80) (if nat_eq c 0xED then 0x9F else 0xBF) s
          && between 0x80 0xBF (behind s)
        then 3
        else 0)
    else if ltb c 0xF5
    then (if between (if nat_eq c 0xF0 then 0x90 else 0x80) (if nat_eq c 0xF4 then 0x8F else 0xBF) s
          && cont2 (behind s)
        then 4
        else 0)
    else 0

-- `pending` bytes of a character are still to be taken over.
unfoldable pub valid_from : ℕ → Bytes → Bytes
valid_from pending [] = []
valid_from (suc pending) (c ∷ s) = c ∷ valid_from pending s
valid_from zero (c ∷ s) =
    let skipped = valid_from zero s in
    let taken = valid_from (utf8_length c s - 1) s in
    if nat_eq (utf8_length c s) 0 then skipped else c ∷ taken

unfoldable pub to_valid_utf8 : Bytes → Bytes
unfolding valid_from
to_valid_utf8 s = valid_from 0 s

length-valid_from-le : (pending : ℕ) (s : Bytes) → length (valid_from pending s) ≤ length s
unfolding valid_from
length-valid_from-le zero [] = omega arith
length-valid_from-le (suc pending) [] = omega arith
length-valid_from-le (suc pending) (c ∷ s) = omega (arith, length-valid_from-le pending s)
length-valid_from-le zero (c ∷ s) =
    go (nat_eq (utf8_length c s) 0) (length-valid_from-le zero s)
      (length-valid_from-le (utf8_length c s - 1) s)
  where
    go :
        (b : Bool)
        → length (valid_from zero s) ≤ length s
        → length (valid_from (utf8_length c s - 1) s) ≤ length s
        → length (if b then valid_from zero s else c ∷ valid_from (utf8_length c s - 1) s)
          ≤ suc (length s)
    go true skipped taken = omega arith
    go false skipped taken = omega arith

pub length-to_valid_utf8-le : (s : Bytes) → length (to_valid_utf8 s) ≤ length s
unfolding to_valid_utf8
length-to_valid_utf8-le s = length-valid_from-le 0 s
