-- ===== src/Base/Maps.antt =====
-- Strings, and maps from strings to numbers as association lists.
use Prim.Native.Nat.{ℕ}
use mathlib.Core.Path.{◌≡◌, refl, sym, ◌∙◌}
use mathlib.Core.Logic.{inl, inr}
use mathlib.Core.Bool.{Bool, true, false, ◌&&◌, ◌||◌}
use mathlib.Core.Option.{Option, none, some}
use mathlib.Core.List.{List, [], ◌∷◌, ◌++◌}
use native.Mathlib.Omega.{arith}
use high_dimensional_flow_re.Base.Tests.{◌==◌, if◌then◌else◌, Bool-cases, Option-cases}
use high_dimensional_flow_re.Base.OrElse.{or_else, or_else-none}

-- The same numbers, one by one: equal strings.
abbrev pub same : List ℕ → List ℕ → Bool
same [] [] = true
same (x ∷ xs) (y ∷ ys) = x == y && same xs ys
same _ _ = false

pub same_sound : (xs ys : List ℕ) → same xs ys ≡ true → xs ≡ ys
same_sound [] [] h = refl
same_sound [] (y ∷ ys) h = ground arith
same_sound (x ∷ xs) [] h = ground arith
same_sound (x ∷ xs) (y ∷ ys) h = ground (arith, same_sound xs ys)

pub same_refl : (xs : List ℕ) → same xs xs ≡ true
same_refl [] = refl
same_refl (x ∷ xs) = ground (arith, same_refl xs)

abbrev pub elem_string : List ℕ → List (List ℕ) → Bool
elem_string s [] = false
elem_string s (t ∷ ts) = same s t || elem_string s ts

-- A map from strings, by its entries.
abbrev pub Map : Type 0 → Type 0
Map V = List (List ℕ × V)

abbrev pub Dict : Type 0
Dict = Map ℕ

abbrev pub find : {V : Type 0} → Map V → List ℕ → Option V
find [] key = none
find ((k, v) ∷ dict) key = elim (same k key) [ true ↦ some v | false ↦ find dict key ]

-- A key that is found stays, and one behind the entries is found if no other is.
pub find-append_some :
    {V : Type 0} (dict more : Map V) (key : List ℕ) (v : V)
    → find dict key ≡ some v
    → find (dict ++ more) key ≡ some v
find-append_some [] more key v e = ground arith
find-append_some ((k, w) ∷ dict) more key v e = elim (Bool-cases (same k key)) [
  | inl here ↦ ground (arith, e)
  | inr other ↦ ground (arith, e, find-append_some dict more key v)
]

pub find-append_none :
    {V : Type 0} (dict more : Map V) (key : List ℕ)
    → find dict key ≡ none
    → find (dict ++ more) key ≡ find more key
find-append_none [] more key e = refl
find-append_none ((k, w) ∷ dict) more key e = elim (Bool-cases (same k key)) [
  | inl here ↦ absurd (ground arith)
  | inr other ↦ ground (arith, e, find-append_none dict more key)
]

-- `dict[key] = v`.
unfoldable pub put : {V : Type 0} → Map V → List ℕ → V → Map V
put [] key v = (key, v) ∷ []
put ((k, w) ∷ dict) key v =
    let rest = put dict key v in if same k key then (k, v) ∷ dict else (k, w) ∷ rest

pub find-put_self :
    {V : Type 0} (dict : Map V) (key : List ℕ) (v : V) → find (put dict key v) key ≡ some v
unfolding put
find-put_self [] key v = ground (arith, same_refl key)
find-put_self ((k, w) ∷ dict) key v = ground (arith, find-put_self dict key v)

pub find-put_other :
    {V : Type 0} (dict : Map V) (key other : List ℕ) (v : V)
    → same key other ≡ false
    → find (put dict key v) other ≡ find dict other
unfolding put
find-put_other [] key other v e = ground arith
find-put_other ((k, w) ∷ dict) key other v e =
    ground (arith, find-put_other dict key other v e, same_sound k key, e)

-- `insert`, which keeps what a key has.
abbrev pub insert_found : {V : Type 0} → Map V → List ℕ → V → Option V → Map V
insert_found m key v none = m ++ ((key, v) ∷ [])
insert_found m key v (some w) = m

abbrev pub insert_new : {V : Type 0} → Map V → List ℕ → V → Map V
insert_new m key v = insert_found m key v (find m key)

pub find-insert_new :
    {V : Type 0} (m : Map V) (key other : List ℕ) (v : V)
    → find (insert_new m key v) other
      ≡ or_else (find m other) (if same key other then some v else none)
find-insert_new m key other v = elim (Option-cases (find m key)) [
  | inl fresh ↦ elim (Option-cases (find m other)) [
    | inl e ↦ rw (fresh, e) (find-append_none m ((key, v) ∷ []) other e ∙ ground arith)
    | inr (w, e) ↦ rw (fresh, e) (find-append_some m ((key, v) ∷ []) other w e)
  ]
  | inr (w, e) ↦ elim (Bool-cases (same key other)) [
    | inl here ↦ rw here (rw (← same_sound key other here) (rw e e))
    | inr away ↦ rw (away, e) (sym (or_else-none (find m other)))
  ]
]
