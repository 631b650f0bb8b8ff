-- ===== src/Pow/Floats.antt =====
-- The functions on floats of src/pow/heavyhash.go, over a type `F` with the operations of the
-- language and of the package math. `FloatOps` also serves the difficulties of clients.
use htn_stratum_bridge.Prelude.{ℕ, zero, suc, Bool, ◌||◌, Option, none, some, ℤ, if◌then◌else◌}

pub record FloatOps (F : Type 0) : Type 0 where
  pub of_nat : ℕ → F
  pub of_int : ℤ → F
  -- `decimal m k` is the literal m / 10^k.
  pub decimal : ℕ → ℕ → F
  pub add : F → F → F
  pub sub : F → F → F
  pub mul : F → F → F
  pub div : F → F → F
  pub remainder : F → F → F
  pub lt : F → F → Bool
  pub le : F → F → Bool
  pub same : F → F → Bool
  pub floor : F → F
  pub abs : F → F
  pub max : F → F → F
  pub sqrt : F → F
  pub exp : F → F
  pub log : F → F
  pub sin : F → F
  pub cos : F → F
  pub half_pi : F
  pub three_half_pi : F
  pub is_nan : F → Bool
  pub is_inf : F → Bool
  pub to_uint32 : F → ℕ
  pub to_uint64 : F → ℕ

module _ {F : Type 0} (fl : FloatOps F) where
  abbrev pub one : F
  one = fl.of_nat 1

  unfoldable pub medium_complex_non_linear : F → F
  medium_complex_non_linear x = fl.exp (fl.add (fl.sin x) (fl.cos x))

  unfoldable pub intermediate_complex_non_linear : F → F
  intermediate_complex_non_linear x =
      if fl.same x fl.half_pi || fl.same x fl.three_half_pi
      then fl.of_nat 0
      else fl.mul (fl.sin x) (fl.sin x)

  unfoldable pub high_complex_non_linear : F → F
  high_complex_non_linear x = fl.mul (fl.exp x) (fl.log (fl.add x one))

  unfoldable pub high_complex_non_linear110 : F → F
  high_complex_non_linear110 x = fl.div one (fl.sqrt (fl.add (fl.abs x) one))

  -- The four branches on the transform factor, which the code writes out for each function.
  abbrev pub by_factor : (F → F) → F → F → F
  by_factor f factor x =
      let shift = fl.add one factor in
      if fl.lt factor (fl.decimal 25 2)
      then f (fl.add x shift)
      else if fl.lt factor (fl.decimal 5 1)
      then f (fl.sub x shift)
      else if fl.lt factor (fl.decimal 75 2)
      then f (fl.mul x shift)
      else f (fl.div x shift)

  unfoldable pub complex_non_linear : F → F
  unfolding medium_complex_non_linear intermediate_complex_non_linear high_complex_non_linear
  complex_non_linear x =
      let four = fl.of_nat 4 in
      let factor = fl.div (fl.remainder x four) four in
      if fl.lt x one
      then by_factor medium_complex_non_linear factor x
      else if fl.lt x (fl.of_nat 10)
      then by_factor intermediate_complex_non_linear factor x
      else by_factor high_complex_non_linear factor x

  -- What is left of a number above its floor.
  abbrev pub fraction : F → F
  fraction x = fl.sub x (fl.floor x)

  unfoldable pub complex_non_linear110 : F → F
  unfolding medium_complex_non_linear intermediate_complex_non_linear high_complex_non_linear110
  complex_non_linear110 x =
      let scaled = fl.mul x (fl.decimal 1 6) in
      let factor_one = fraction (fl.div scaled (fl.of_nat 8)) in
      let factor_two = fraction (fl.div scaled (fl.of_nat 4)) in
      if fl.lt factor_one (fl.decimal 33 2)
      then by_factor medium_complex_non_linear factor_two x
      else if fl.lt factor_one (fl.decimal 66 2)
      then by_factor intermediate_complex_non_linear factor_two x
      else by_factor high_complex_non_linear110 factor_two x

  -- The loop of `ForComplex`, on fuel, over the argument and the rounds.
  unfoldable pub complex_rounds : ℕ → F → ℕ → Option F
  unfolding complex_non_linear110
  complex_rounds zero x rounds = none
  complex_rounds (suc fuel) x rounds =
      let complex = complex_non_linear110 x in
      let x' = fl.mul x (fl.decimal 1 1) in
      let again = complex_rounds fuel x' (suc rounds) in
      if fl.is_nan complex || fl.is_inf complex
      then (if fl.le x' (fl.decimal 1 13)
          then some (fl.mul (fl.of_nat 0) (fl.of_nat rounds))
          else again)
      else some (fl.mul complex (fl.of_nat rounds))

  -- `ForComplex`
  unfoldable pub for_complex : ℕ → F → Option F
  unfolding complex_rounds
  for_complex fuel x = complex_rounds fuel x 1

  unfoldable pub transform_factor : F → F
  transform_factor x = fraction (fl.div x (fl.of_nat 1024))

  -- `for forComplex > limit { forComplex = forComplex * 0.1 }`, on fuel.
  unfoldable pub scale_down : F → ℕ → F → Option F
  scale_down limit zero x = none
  scale_down limit (suc fuel) x =
      let again = scale_down limit fuel (fl.mul x (fl.decimal 1 1)) in
      if fl.lt limit x then again else some x
