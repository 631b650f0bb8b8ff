-- ===== src/Prelude/Int.antt =====
-- Go's `int` and `int64` over the native numbers: 64-bit counters that wrap, and the remainder
-- that takes the sign of the dividend.
use Prim.Native.Nat.{ℕ, zero, suc, ◌+◌, ◌-◌, ◌%◌, ◌^◌}
use mathlib.Core.Path.{◌≡◌}
use mathlib.Core.Logic.{◌↔◌}
use mathlib.Core.Bool.{Bool, true, false}
use native.Mathlib.Omega.{arith}
use htn_stratum_bridge.Prelude.Tests.{Eq, nat_eq, leb, ltb, if◌then◌else◌}

-- `negsuc n` is -(n + 1).
pub data ℤ : Type 0 where
  pos : ℕ → ℤ
  negsuc : ℕ → ℤ

abbrev pub pos_part : ℤ → ℕ
pos_part (pos n) = n
pos_part (negsuc n) = 0

abbrev pub neg_part : ℤ → ℕ
neg_part (pos n) = 0
neg_part (negsuc n) = suc n

abbrev pub neg : ℕ → ℤ
neg zero = pos 0
neg (suc n) = negsuc n

abbrev pub int_eq : ℤ → ℤ → Bool
int_eq (pos a) (pos b) = nat_eq a b
int_eq (pos a) (negsuc b) = false
int_eq (negsuc a) (pos b) = false
int_eq (negsuc a) (negsuc b) = nat_eq a b

pub int_eq_iff : (a b : ℤ) → (int_eq a b ≡ true) ↔ (a ≡ b)
int_eq_iff (pos a) (pos b) = ground arith
int_eq_iff (pos a) (negsuc b) = ground arith
int_eq_iff (negsuc a) (pos b) = ground arith
int_eq_iff (negsuc a) (negsuc b) = ground arith

instance abbrev pub int_Eq : Eq ℤ
int_Eq = record { beq = int_eq; beq_iff = int_eq_iff }

abbrev pub leb_ℤ : ℤ → ℤ → Bool
leb_ℤ a b = leb (pos_part a + neg_part b) (pos_part b + neg_part a)

abbrev pub ltb_ℤ : ℤ → ℤ → Bool
ltb_ℤ a b = ltb (pos_part a + neg_part b) (pos_part b + neg_part a)

-- The greatest `int64`.
abbrev pub max_int : ℕ
max_int = 2 ^ 63 - 1

-- `i++` on an `int64`: it wraps from the greatest value to the least.
unfoldable pub int_inc : ℤ → ℤ
int_inc (pos n) = if nat_eq n max_int then negsuc max_int else pos (n + 1)
int_inc (negsuc zero) = pos 0
int_inc (negsuc (suc n)) = negsuc n

-- `a % n` on `int`.
unfoldable pub int_rem : ℤ → ℕ → ℤ
int_rem (pos a) n = pos (a % n)
int_rem (negsuc a) n = neg (suc a % n)
