-- ===== src/Numbers.antt =====
-- What the code does with a `double` beyond comparing: conversions, arithmetic and reading. The
-- order and zero are those of common/step_function.hpp.
use high_dimensional_flow_re.Base.{ℕ, Option, List}
use high_dimensional_flow_re.Base.Ints.{ℤ}
use high_dimensional_flow_re.StepFunction.{Doubles}

pub record Numbers : Type 1 where
  pub doubles : Doubles
  pub open doubles use {Double, lt, zero_double}
  -- The literal `m` times ten to the power `- e`; an unsigned number; a 32-bit number times a
  -- `float`, given by the word of its bytes.
  pub literal : ℕ → ℕ → Double
  pub of_nat : ℕ → Double
  pub of_int : ℤ → Double
  pub float_product : ℕ → ℕ → Double
  pub add : Double → Double → Double
  pub sub : Double → Double → Double
  pub mul : Double → Double → Double
  pub div : Double → Double → Double
  pub pow : Double → Double → Double
  pub ceil : Double → Double
  -- `static_cast<int>`, undefined where the number does not fit.
  pub truncate : Double → Option ℤ
  pub strtod : List ℕ → Double

module _ (d : Numbers) where
  open d use {Double, literal, add, div}

  -- `ESCAPE_ZERO`, and a quotient whose divisor it keeps from zero.
  abbrev pub escape_zero : Double
  escape_zero = literal 1 9

  abbrev pub ratio : Double → Double → Double
  ratio x y = div x (add y escape_zero)
