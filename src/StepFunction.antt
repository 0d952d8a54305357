-- ===== src/StepFunction.antt =====
-- common/step_function.hpp: a function that is constant between split points, found by binary
-- search. The type of its numbers is a parameter: `double` with `<`.
pub mod Search
pub mod Total
use high_dimensional_flow_re.Base.{
  ℕ, zero, suc, ◌+◌, ◌/◌, ◌^◌, Bool, true, false, Option, none, some, List, [], ◌∷◌, ltb, ◌==◌,
  if◌then◌else◌, ◌>>=◌, u32, length, get_elem?,
}

-- The numbers, and their order test.
pub record Doubles : Type 1 where
  pub Double : Type 0
  pub lt : Double → Double → Bool
  pub zero_double : Double

module _ (d : Doubles) where
  open d use {Double, lt, zero_double}

  pub record StepFunction : Type 0 where
    pub values : List Double
    pub splits : List Double

  abbrev pub clear : StepFunction → StepFunction
  clear f = record { values = []; splits = [] }

  abbrev pub set_values : List Double → StepFunction → StepFunction
  set_values values f = record f { values = values }

  -- `std::sort`: an order of the elements in which none is less than one before it.
  pub insert : Double → List Double → List Double
  insert x [] = x ∷ []
  insert x (y ∷ ys) = let rest = insert x ys in if lt y x then y ∷ rest else x ∷ y ∷ ys

  pub sort : List Double → List Double
  sort [] = []
  sort (x ∷ xs) = insert x (sort xs)

  abbrev pub set_splits : List Double → StepFunction → StepFunction
  set_splits splits f = record f { splits = sort splits }

  abbrev pub is_valid : StepFunction → Bool
  is_valid f = length f.values == length f.splits + 1

  -- The `while` loop: `none` is the end of the fuel, or a read outside the splits.
  pub search : Double → List Double → ℕ → ℕ → ℕ → Option ℕ
  search x splits zero left right = none
  search x splits (suc fuel) left right =
      let mid = u32 (left + right) / 2 in
      elim (ltb left right) [
        | false ↦ some left
        | true ↦ get_elem? splits mid >>= λ split. elim (lt split x) [
          | true ↦ search x splits fuel (mid + 1) right
          | false ↦ search x splits fuel left mid
        ]
      ]

  -- A round makes the interval smaller, so the rounds are as many as there are splits, and one to
  -- find it empty.
  unfoldable pub get_value : Double → StepFunction → Option Double
  get_value x f =
      if is_valid f
      then (search x f.splits (suc (length f.splits)) 0 (u32 (length f.splits)) >>= λ left.
          if ltb left (length f.values) then get_elem? f.values left else some zero_double)
      else some zero_double
