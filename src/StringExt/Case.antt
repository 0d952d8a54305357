-- ===== src/StringExt/Case.antt =====
-- `ToLower` and `ToUpper` of util/string_ext.hpp.
use mathlib.Core.Path.{ap₂}
use high_dimensional_flow_re.Base.{ℕ, ◌≡◌, refl, List, [], ◌∷◌, arith}
use high_dimensional_flow_re.StringExt.{lower, upper, to_lower, to_upper}

lower-upper : (c : ℕ) → lower (upper c) ≡ lower c
unfolding lower upper
lower-upper c = ground arith

upper-lower : (c : ℕ) → upper (lower c) ≡ upper c
unfolding lower upper
upper-lower c = ground arith

-- Either conversion undoes the other: the case that a string had before does not matter.
pub to_lower-to_upper :
    (str : List ℕ)
    → (to_lower (to_upper str) ≡ to_lower str) × (to_upper (to_lower str) ≡ to_upper str)
unfolding to_lower to_upper
to_lower-to_upper [] = (refl, refl)
to_lower-to_upper (c ∷ str) =
    let (low, high) = to_lower-to_upper str in
    (ap₂ ◌∷◌ (lower-upper c) low, ap₂ ◌∷◌ (upper-lower c) high)
