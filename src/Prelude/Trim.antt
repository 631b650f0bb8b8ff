-- ===== src/Prelude/Trim.antt =====
-- `strings.TrimSpace` and `strings.ToLower` on the bytes of a UTF-8 text.
use Prim.Native.Nat.{ℕ, zero, suc, ◌<◌}
use mathlib.Core.Path.{◌≡◌, refl, ap, ◌∙◌}
use mathlib.Core.Logic.{◌≢◌}
use mathlib.Core.Option.{Option, none, some}
use mathlib.Core.List.{List, [], ◌∷◌, map, reverse, reverse-reverse}
use native.Mathlib.Omega.{arith}
use htn_stratum_bridge.Prelude.Tests.{nat_eq, if◌then◌else◌}
use htn_stratum_bridge.Prelude.Lists.{length, All, All-reverse}
use htn_stratum_bridge.Prelude.Text.{Bytes}

-- The text behind a prefix.
unfoldable pub strip_prefix : Bytes → Bytes → Option Bytes
strip_prefix [] s = some s
strip_prefix (p ∷ ps) [] = none
strip_prefix (p ∷ ps) (c ∷ s) = let rest = strip_prefix ps s in if nat_eq c p then rest else none

-- The code points of `unicode.IsSpace`, each as its UTF-8 bytes.
abbrev pub spaces : List Bytes
spaces =
    (b' ' ∷ [])
    ∷ (9 ∷ [])
    ∷ (10 ∷ [])
    ∷ (11 ∷ [])
    ∷ (12 ∷ [])
    ∷ (13 ∷ [])
    ∷ (0xC2 ∷ 0x85 ∷ [])
    ∷ (0xC2 ∷ 0xA0 ∷ [])
    ∷ (0xE1 ∷ 0x9A ∷ 0x80 ∷ [])
    ∷ (0xE2 ∷ 0x80 ∷ 0x80 ∷ [])
    ∷ (0xE2 ∷ 0x80 ∷ 0x81 ∷ [])
    ∷ (0xE2 ∷ 0x80 ∷ 0x82 ∷ [])
    ∷ (0xE2 ∷ 0x80 ∷ 0x83 ∷ [])
    ∷ (0xE2 ∷ 0x80 ∷ 0x84 ∷ [])
    ∷ (0xE2 ∷ 0x80 ∷ 0x85 ∷ [])
    ∷ (0xE2 ∷ 0x80 ∷ 0x86 ∷ [])
    ∷ (0xE2 ∷ 0x80 ∷ 0x87 ∷ [])
    ∷ (0xE2 ∷ 0x80 ∷ 0x88 ∷ [])
    ∷ (0xE2 ∷ 0x80 ∷ 0x89 ∷ [])
    ∷ (0xE2 ∷ 0x80 ∷ 0x8A ∷ [])
    ∷ (0xE2 ∷ 0x80 ∷ 0xA8 ∷ [])
    ∷ (0xE2 ∷ 0x80 ∷ 0xA9 ∷ [])
    ∷ (0xE2 ∷ 0x80 ∷ 0xAF ∷ [])
    ∷ (0xE2 ∷ 0x81 ∷ 0x9F ∷ [])
    ∷ (0xE3 ∷ 0x80 ∷ 0x80 ∷ [])
    ∷ []

-- The text behind the first of the given prefixes that it has.
unfoldable pub strip_any : List Bytes → Bytes → Option Bytes
strip_any [] s = none
strip_any (p ∷ ps) s =
    let other = strip_any ps s in elim (strip_prefix p s) [ none ↦ other | some rest ↦ some rest ]

-- Strips such prefixes as long as there are any, on fuel: each is not empty, so the length of the
-- text is enough.
unfoldable pub strip_all : ℕ → List Bytes → Bytes → Bytes
strip_all zero ps s = s
strip_all (suc fuel) ps s = elim (strip_any ps s) [ none ↦ s | some rest ↦ strip_all fuel ps rest ]

abbrev pub strip_left : Bytes → Bytes
strip_left s = strip_all (length s) spaces s

abbrev pub strip_right : Bytes → Bytes
strip_right s = reverse (strip_all (length s) (map reverse spaces) (reverse s))

unfoldable pub trim_space : Bytes → Bytes
unfolding strip_all strip_any strip_prefix
trim_space s = strip_right (strip_left s)

-- A byte that neither begins nor ends a space.
abbrev pub IsPlain : ℕ → Type 0
IsPlain b = (b ≢ b' ') × (13 < b) × (b < 128)

-- The byte does not begin the given prefix, which is not empty.
abbrev pub Differs : ℕ → Bytes → Type 0
Differs c [] = ⊥
Differs c (p ∷ ps) = c ≢ p

strip_any-none :
    (c : ℕ) (s : Bytes) (ps : List Bytes) → All (Differs c) ps → strip_any ps (c ∷ s) ≡ none
unfolding strip_any strip_prefix
strip_any-none c s [] h = refl
strip_any-none c s ([] ∷ ps) h = absurd h.0
strip_any-none c s ((q ∷ qs) ∷ ps) h = ground (arith, strip_any-none c s ps h.1)

strip_all_plain :
    (fuel c : ℕ) (s : Bytes) (ps : List Bytes)
    → All (Differs c) ps
    → strip_all fuel ps (c ∷ s) ≡ c ∷ s
unfolding strip_all
strip_all_plain zero c s ps h = refl
strip_all_plain (suc fuel) c s ps h = rw (strip_any-none c s ps h, strip_all)

strip_all-nil : (fuel : ℕ) (ps : List Bytes) → strip_any ps [] ≡ none → strip_all fuel ps [] ≡ []
unfolding strip_all
strip_all-nil zero ps h = refl
strip_all-nil (suc fuel) ps h = rw (h, strip_all)

spaces-Differs : (c : ℕ) → IsPlain c → All (Differs c) spaces
spaces-Differs c h = omega arith

ends-Differs : (c : ℕ) → IsPlain c → All (Differs c) (map reverse spaces)
ends-Differs c h = omega arith

plain_left : (fuel : ℕ) (s : Bytes) → All IsPlain s → strip_all fuel spaces s ≡ s
unfolding strip_any strip_prefix
plain_left fuel [] h = strip_all-nil fuel spaces refl
plain_left fuel (c ∷ s) h = strip_all_plain fuel c s spaces (spaces-Differs c h.0)

plain_right : (fuel : ℕ) (s : Bytes) → All IsPlain s → strip_all fuel (map reverse spaces) s ≡ s
unfolding strip_any strip_prefix
plain_right fuel [] h = strip_all-nil fuel (map reverse spaces) refl
plain_right fuel (c ∷ s) h = strip_all_plain fuel c s (map reverse spaces) (ends-Differs c h.0)

-- A text of plain bytes has nothing to trim.
pub trim_space_plain : (s : Bytes) → All IsPlain s → trim_space s ≡ s
unfolding trim_space
trim_space_plain s h =
    rw (plain_left (length s) s h) (
      ap reverse (plain_right (length s) (reverse s) (All-reverse IsPlain s h)) ∙ reverse-reverse s)
