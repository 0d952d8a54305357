-- ===== src/Param/Steps.antt =====
-- The step functions of `Load` of src/param.cc: what the texts of their settings read as.
use high_dimensional_flow_re.Base.{
  ℕ, ◌+◌, ◌%◌, ◌≡◌, refl, ap, sym, ◌∙◌, Bool, true, false, Option, none, some, List, [], ◌∷◌, arith,
  ◌==◌, if◌then◌else◌, length, Bool-cases, inl, inr,
}
use high_dimensional_flow_re.Base.Ints.{ℤ, pos, negsuc}
use high_dimensional_flow_re.StringExt.{split, strip}
use high_dimensional_flow_re.StepFunction.{StepFunction, sort}
use high_dimensional_flow_re.Numbers.{Numbers}
use high_dimensional_flow_re.Param.{
  Param, read_numbers, values_from, splits_from, deserialize_step, store_step, load_step, is_empty,
}

-- The elements at the even places, and those at the odd places.
module _ {A : Type 0} where
  abbrev pub evens : List A → List A
  evens [] = []
  evens (x ∷ []) = x ∷ []
  evens (x ∷ y ∷ xs) = x ∷ evens xs

  abbrev pub odds : List A → List A
  odds [] = []
  odds (x ∷ []) = []
  odds (x ∷ y ∷ xs) = y ∷ odds xs

module _ (d : Numbers) where
  open d use {doubles, Double, strtod}

  abbrev pub no_step : StepFunction doubles
  no_step = record { values = []; splits = [] }

  -- The numbers of the fields that are not blank.
  abbrev number_before : List ℕ → List Double → List Double
  number_before [] nums = nums
  number_before (c ∷ num) nums = strtod (c ∷ num) ∷ nums

  abbrev pub numbers_in : List (List ℕ) → List Double
  numbers_in [] = []
  numbers_in (item ∷ items) = number_before (strip item) (numbers_in items)

  -- The text of a step function: values and splits by turns, with a value more than splits.
  abbrev pub step_of : List ℕ → StepFunction doubles
  step_of text = record {
    values = evens (numbers_in (split text b'|'));
    splits = sort doubles (odds (numbers_in (split text b'|')));
  }

  abbrev pub is_step : List ℕ → Bool
  is_step text =
      length (evens (numbers_in (split text b'|')))
      == length (odds (numbers_in (split text b'|'))) + 1

  -- A setting that is not there is no fault, and leaves no step function.
  abbrev pub is_good : Option (List ℕ) → Bool
  is_good none = true
  is_good (some text) = is_step text

  abbrev pub step_given : Option (List ℕ) → StepFunction doubles
  step_given none = no_step
  step_given (some text) = if is_step text then step_of text else no_step

  read_numbers_lem : (items : List (List ℕ)) → read_numbers d items ≡ numbers_in items
  unfolding read_numbers
  read_numbers_lem [] = refl
  read_numbers_lem (item ∷ items) =
      go (strip item) ∙ ap (number_before (strip item)) (read_numbers_lem items)
    where
      go :
          (num : List ℕ)
          → (if is_empty num then read_numbers d items else strtod num ∷ read_numbers d items)
            ≡ number_before num (read_numbers d items)
      go [] = refl
      go (c ∷ num) = refl

  values_from-evens : (i : ℕ) (xs : List Double) → i % 2 ≡ 0 → values_from d i xs ≡ evens xs
  unfolding values_from
  values_from-evens i [] e = refl
  values_from-evens i (x ∷ []) e = ground (arith, e)
  values_from-evens i (x ∷ y ∷ xs) e =
      let even : (i % 2 == 1) ≡ false = ground (arith, e) in
      let odd : ((i + 1) % 2 == 1) ≡ true = ground (arith, e) in
      rw (values_from, even, odd) (ap (◌∷◌ x) (values_from-evens (i + 1 + 1) xs (omega (arith, e))))

  splits_from-odds : (i : ℕ) (xs : List Double) → i % 2 ≡ 0 → splits_from d i xs ≡ odds xs
  unfolding splits_from
  splits_from-odds i [] e = refl
  splits_from-odds i (x ∷ []) e = ground (arith, e)
  splits_from-odds i (x ∷ y ∷ xs) e =
      let even : (i % 2 == 1) ≡ false = ground (arith, e) in
      let odd : ((i + 1) % 2 == 1) ≡ true = ground (arith, e) in
      rw (splits_from, even, odd) (ap (◌∷◌ y) (splits_from-odds (i + 1 + 1) xs (omega (arith, e))))

  deserialize_step_lem :
      (text : List ℕ) (f : StepFunction doubles)
      → deserialize_step d text f
        ≡ (if is_step text then (pos 0, step_of text) else (negsuc 0, no_step))
  unfolding deserialize_step
  deserialize_step_lem text f =
      let numbers = read_numbers_lem (split text b'|') in
      rw
        (
          deserialize_step,
          numbers,
          values_from-evens 0 (numbers_in (split text b'|')) refl,
          splits_from-odds 0 (numbers_in (split text b'|')) refl,
        )
        refl

  pub load_step_lem :
      (o : Option (List ℕ)) (get : Param d → StepFunction doubles)
      (put : Param d → StepFunction doubles → Param d) (rest : Param d → ℤ × Param d) (p : Param d)
      → put p no_step ≡ p
      → load_step d o get put rest p
        ≡ (if is_good o then rest (put p (step_given o)) else (negsuc 0, p))
  load_step_lem none get put rest p kept = ap rest (sym kept)
  load_step_lem (some text) get put rest p kept =
      ap (store_step d put p rest) (deserialize_step_lem text (get p))
      ∙ (elim (Bool-cases (is_step text)) [
        | inl good ↦ rw good refl
        | inr bad ↦ rw bad (ap (λ q. (negsuc 0, q)) kept)
      ])
