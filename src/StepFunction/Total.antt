-- ===== src/StepFunction/Total.antt =====
-- `GetValue` of common/step_function.hpp always comes to a value.
use native.Mathlib.Nat.{mod-eq_of_lt}
use high_dimensional_flow_re.Base.{
  ℕ, zero, suc, ◌+◌, ◌-◌, ◌/◌, ◌^◌, ◌≤◌, ◌<◌, ◌≡◌, refl, some, List, arith, ltb, u32, length,
  get_or, get_elem?-eq-get_or, Bool-cases, inl, inr,
}
use high_dimensional_flow_re.StepFunction.{Doubles, StepFunction, is_valid, search, get_value}

module _ (d : Doubles) where
  open d use {Double, lt, zero_double}

  -- The loop ends, whatever the order of the splits: each round makes the interval smaller.
  search-total :
      (x : Double) (splits : List Double) (fuel left right : ℕ)
      → length splits < 2 ^ 31
      → right ≤ length splits
      → right - left < fuel
      → (k : ℕ) × (search d x splits fuel left right ≡ some k)
  unfolding search
  search-total x splits zero left right small fits h = absurd (omega arith)
  search-total x splits (suc fuel) left right small fits h = elim (Bool-cases (ltb left right)) [
    | inr done ↦ (left, rw (search, done) refl)
    | inl more ↦
        let mid = u32 (left + right) / 2 in
        let no_wrap : u32 (left + right) ≡ left + right =
          mod-eq_of_lt (ground (arith, more, fits, small)) in
        let s = get_or splits mid zero_double in
        let read =
          get_elem?-eq-get_or splits mid zero_double (ground (arith, no_wrap, more, fits)) in
        elim (Bool-cases (lt s x)) [
          | inl below ↦
              let (k, e) =
                search-total x splits fuel (mid + 1) right small fits
                  (ground (arith, no_wrap, more)) in
              (k, rw (search, more, read, below) e)
          | inr above ↦
              let (k, e) =
                search-total x splits fuel left mid small (ground (arith, no_wrap, more, fits))
                  (ground (arith, no_wrap, more)) in
              (k, rw (search, more, read, above) e)
        ]
  ]

  pub get_value-total :
      (x : Double) (f : StepFunction d)
      → length f.splits < 2 ^ 31
      → (v : Double) × (get_value d x f ≡ some v)
  unfolding get_value
  get_value-total x f small =
      let all : u32 (length f.splits) ≡ length f.splits = mod-eq_of_lt (omega (arith, small)) in
      let (k, e) =
        search-total x f.splits (suc (length f.splits)) 0 (u32 (length f.splits)) small
          (omega (arith, all)) (omega (arith, all)) in
      elim (Bool-cases (is_valid d f)) [
        | inr bad ↦ (zero_double, rw bad refl)
        | inl good ↦ elim (Bool-cases (ltb k (length f.values))) [
          | inr behind ↦ (zero_double, rw (good, e, behind) refl)
          | inl inside ↦
              let read = get_elem?-eq-get_or f.values k zero_double (ground (arith, inside)) in
              (get_or f.values k zero_double, rw (good, e, inside) read)
        ]
      ]
