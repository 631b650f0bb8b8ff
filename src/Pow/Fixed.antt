-- ===== src/Pow/Fixed.antt =====
-- Numbers that stand for the floats of src/pow where a theorem is applied.
use htn_stratum_bridge.Prelude.{
  ℕ, ◌+◌, ◌-◌, ◌*◌, ◌/◌, ◌%◌, ◌^◌, true, false, nat_eq, ltb, leb, pos_part, if◌then◌else◌,
}
use htn_stratum_bridge.Pow.Floats.{FloatOps}

-- Numbers in thousandths.
abbrev pub fixed : FloatOps ℕ
fixed = record {
  of_nat = λ n. n * 1000;
  of_int = λ i. pos_part i * 1000;
  decimal = λ m k. m * 1000 / 10 ^ k;
  add = λ a b. a + b;
  sub = λ a b. a - b;
  mul = λ a b. a * b / 1000;
  div = λ a b. a * 1000 / b;
  remainder = λ a b. a % b;
  lt = ltb;
  le = leb;
  same = nat_eq;
  floor = λ a. a / 1000 * 1000;
  abs = λ a. a;
  max = λ a b. if leb a b then b else a;
  sqrt = λ a. a;
  exp = λ a. a;
  log = λ a. a;
  sin = λ a. a;
  cos = λ a. a;
  half_pi = 1570;
  three_half_pi = 4712;
  is_nan = λ a. false;
  is_inf = λ a. false;
  to_uint32 = λ a. a / 1000;
  to_uint64 = λ a. a / 1000;
}

-- Every entry of a matrix counts as a pivot.
abbrev pub pivotal : FloatOps ℕ
pivotal = record fixed { lt = λ a b. true }
