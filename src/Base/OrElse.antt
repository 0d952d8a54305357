-- ===== src/Base/OrElse.antt =====
-- The first of two values that is there.
use mathlib.Core.Path.{◌≡◌, refl}
use mathlib.Core.Option.{Option, none, some}

module _ {ℓ} {A : Type ℓ} where
  abbrev pub or_else : Option A → Option A → Option A
  or_else none o = o
  or_else (some n) o = some n

  pub or_else_assoc : (a b c : Option A) → or_else a (or_else b c) ≡ or_else (or_else a b) c
  or_else_assoc none b c = refl
  or_else_assoc (some n) b c = refl

  pub or_else-none : (a : Option A) → or_else a none ≡ a
  or_else-none none = refl
  or_else-none (some n) = refl

  -- The value, or another where there is none.
  abbrev pub value_or : A → Option A → A
  value_or d none = d
  value_or d (some a) = a
