-- ===== src/Base/IntMaps.antt =====
-- Maps from numbers of type `int`, by their entries.
use mathlib.Core.Path.{◌≡◌}
use mathlib.Core.Logic.{inl, inr}
use mathlib.Core.Bool.{Bool, true, false}
use mathlib.Core.Option.{Option, none, some}
use mathlib.Core.List.{List, [], ◌∷◌}
use native.Mathlib.Omega.{arith}
use high_dimensional_flow_re.Base.Tests.{◌==◌, if◌then◌else◌, Bool-cases}
use high_dimensional_flow_re.Base.Ints.{ℤ, pos, negsuc}

abbrev pub same_int : ℤ → ℤ → Bool
same_int (pos m) (pos n) = m == n
same_int (negsuc m) (negsuc n) = m == n
same_int _ _ = false

pub same_int_sound : (m n : ℤ) → same_int m n ≡ true → m ≡ n
same_int_sound (pos m) (pos n) e = ground arith
same_int_sound (pos m) (negsuc n) e = ground arith
same_int_sound (negsuc m) (pos n) e = ground arith
same_int_sound (negsuc m) (negsuc n) e = ground arith

pub same_int_refl : (m : ℤ) → same_int m m ≡ true
same_int_refl (pos m) = ground arith
same_int_refl (negsuc m) = ground arith

module _ {ℓ} {V : Type ℓ} where
  abbrev pub find_int : List (ℤ × V) → ℤ → Option V
  find_int [] key = none
  find_int ((k, v) ∷ m) key = elim (same_int k key) [ true ↦ some v | false ↦ find_int m key ]

  -- `map[key] = v`.
  pub put_int : List (ℤ × V) → ℤ → V → List (ℤ × V)
  put_int [] key v = (key, v) ∷ []
  put_int ((k, w) ∷ m) key v =
      let rest = put_int m key v in if same_int k key then (k, v) ∷ m else (k, w) ∷ rest

  pub find_int-put_int :
      (m : List (ℤ × V)) (key other : ℤ) (v : V)
      → find_int (put_int m key v) other ≡ (if same_int key other then some v else find_int m other)
  unfolding put_int
  find_int-put_int [] key other v = ground arith
  find_int-put_int ((k, w) ∷ m) key other v = elim (Bool-cases (same_int k key)) [
    | inl here ↦ rw (← same_int_sound k key here) (ground (arith, here, same_int_refl k))
    | inr away ↦ elim (Bool-cases (same_int key other)) [
      | inl found ↦
          rw (← same_int_sound key other found)
            (ground (arith, away, same_int_refl key, find_int-put_int m key key v))
      | inr missing ↦ ground (arith, away, missing, find_int-put_int m key other v)
    ]
  ]
