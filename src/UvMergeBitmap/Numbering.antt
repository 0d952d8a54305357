-- ===== src/UvMergeBitmap/Numbering.antt =====
-- The numbers that `Generate` of src/uv_merge_bitmap.cc gives to the psids.
use native.Mathlib.Nat.{mod-eq_of_lt}
use high_dimensional_flow_re.Base.{
  ℕ, ◌+◌, ◌^◌, ◌≤◌, ◌<◌, ◌≡◌, ◌⊎◌, refl, sym, ◌∙◌, Option, none, some, List, [], ◌∷◌, ◌++◌, arith,
  u32, length, length-append, Option-cases, inl, inr,
}
use high_dimensional_flow_re.Base.Maps.{
  Dict, find, same_sound, same_refl, find-append_some, find-append_none,
}
use high_dimensional_flow_re.UvMergeBitmap.{number_found, number_sample, number_samples}

-- Different psids have different numbers, all below the number of psids.
pub record IsNumbering (dict : Dict) : Type 0 where
  pub injective : (p q : List ℕ) (r : ℕ) → find dict p ≡ some r → find dict q ≡ some r → p ≡ q
  pub below : (p : List ℕ) (r : ℕ) → find dict p ≡ some r → r < length dict

-- A dictionary keeps the numbers of another.
pub record Extends (dict dict' : Dict) : Type 0 where
  pub keeps : (p : List ℕ) (r : ℕ) → find dict p ≡ some r → find dict' p ≡ some r
  pub longer : length dict ≤ length dict'

Extends-refl : (dict : Dict) → Extends dict dict
Extends-refl dict = record { keeps = λ p r e. e; longer = omega arith }

Extends-trans : {a b c : Dict} → Extends a b → Extends b c → Extends a c
Extends-trans f g = record {
  keeps = λ p r e. g.keeps p r (f.keeps p r e);
  longer = omega (arith, f.longer, g.longer);
}

-- A column holds the numbers of the psids of its sample.
abbrev pub Places : Dict → List (List ℕ) → List ℕ → Type 0
Places dict [] [] = Unit {0}
Places dict (p ∷ ps) (r ∷ rs) = (find dict p ≡ some r) × Places dict ps rs
Places dict _ _ = ⊥

new_psid :
    (dict : Dict) (p q : List ℕ) (n : ℕ)
    → find dict q ≡ none
    → find (dict ++ ((p, n) ∷ [])) q ≡ find ((p, n) ∷ []) q
new_psid dict p q n e = find-append_none dict ((p, n) ∷ []) q e

-- The step of the inner loop keeps the numbering.
pub record IsStep (dict : Dict) (p : List ℕ) (r : ℕ) (dict' : Dict) : Type 0 where
  pub numbering : IsNumbering dict'
  pub extends : Extends dict dict'
  pub placed : find dict' p ≡ some r

number_found-IsStep :
    (dict : Dict) (p : List ℕ) (o : Option ℕ)
    → IsNumbering dict
    → length dict < 2 ^ 32
    → find dict p ≡ o
    → IsStep dict p (number_found dict p o).0 (number_found dict p o).1
unfolding number_found
number_found-IsStep dict p (some r) v small e = record {
  numbering = v;
  extends = Extends-refl dict;
  placed = e;
}
number_found-IsStep dict p none v small e =
    let n = length dict in
    let dict' = dict ++ ((p, n) ∷ []) in
    let no_wrap : u32 n ≡ n = mod-eq_of_lt small in
    let longer : length dict' ≡ n + 1 = length-append dict ((p, n) ∷ []) in
    let placed : find dict' p ≡ some n = new_psid dict p p n e ∙ ground (arith, same_refl p) in
    let known : (q : List ℕ) (r : ℕ)
        → find dict' q ≡ some r
        → (find dict q ≡ some r) ⊎ ((r ≡ n) × (q ≡ p)) =
      λ q r h. elim (Option-cases (find dict q)) [
        | inr (s, found) ↦ inl (found ∙ sym (find-append_some dict ((p, n) ∷ []) q s found) ∙ h)
        | inl missing ↦ ground (arith, sym (new_psid dict p q n missing) ∙ h, same_sound p q)
      ] in
    rw no_wrap (record {
      numbering = record {
        injective = λ q q' r h h'.
            ground
              (arith, known q r h, known q' r h', v.injective q q' r, v.below q r, v.below q' r);
        below = λ q r h. ground (arith, known q r h, v.below q r, longer);
      };
      extends = record {
        keeps = λ q r h. find-append_some dict ((p, n) ∷ []) q r h;
        longer = omega (arith, longer);
      };
      placed = placed;
    })

number_found-longer :
    (dict : Dict) (p : List ℕ) (o : Option ℕ) → length dict ≤ length (number_found dict p o).1
unfolding number_found
number_found-longer dict p (some r) = omega arith
number_found-longer dict p none = omega (arith, length-append dict ((p, u32 (length dict)) ∷ []))

number_sample-longer :
    (dict : Dict) (ps : List (List ℕ)) → length dict ≤ length (number_sample dict ps).1
unfolding number_sample
number_sample-longer dict [] = omega arith
number_sample-longer dict (p ∷ ps) =
    let dict' = (number_found dict p (find dict p)).1 in
    omega (arith, number_found-longer dict p (find dict p), number_sample-longer dict' ps)

number_samples-longer :
    (dict : Dict) (samples : List (List (List ℕ)))
    → length dict ≤ length (number_samples dict samples).1
unfolding number_samples
number_samples-longer dict [] = omega arith
number_samples-longer dict (ps ∷ samples) =
    let dict' = (number_sample dict ps).1 in
    omega (arith, number_sample-longer dict ps, number_samples-longer dict' samples)

Places-Extends :
    {dict dict' : Dict} (ps : List (List ℕ)) (rs : List ℕ)
    → Extends dict dict'
    → Places dict ps rs
    → Places dict' ps rs
Places-Extends [] [] x h = tt
Places-Extends [] (r ∷ rs) x h = absurd h
Places-Extends (p ∷ ps) [] x h = absurd h
Places-Extends (p ∷ ps) (r ∷ rs) x h = (x.keeps p r h.0, Places-Extends ps rs x h.1)

-- The inner loop has run.
pub record IsColumn (dict : Dict) (ps : List (List ℕ)) (column : List ℕ) (dict' : Dict)
    : Type 0 where
  pub numbering : IsNumbering dict'
  pub extends : Extends dict dict'
  pub placed : Places dict' ps column

number_sample-IsColumn :
    (dict : Dict) (ps : List (List ℕ))
    → IsNumbering dict
    → length (number_sample dict ps).1 < 2 ^ 32
    → IsColumn dict ps (number_sample dict ps).0 (number_sample dict ps).1
unfolding number_sample
number_sample-IsColumn dict [] v small = record {
  numbering = v;
  extends = Extends-refl dict;
  placed = tt;
}
number_sample-IsColumn dict (p ∷ ps) v small =
    let o = find dict p in
    let dict' = (number_found dict p o).1 in
    let longer = number_sample-longer dict' ps in
    let longer' = number_found-longer dict p o in
    let step = number_found-IsStep dict p o v (omega (arith, longer, longer')) refl in
    let rest = number_sample-IsColumn dict' ps step.numbering small in
    record {
      numbering = rest.numbering;
      extends = Extends-trans step.extends rest.extends;
      placed = (rest.extends.keeps p (number_found dict p o).0 step.placed, rest.placed);
    }

abbrev pub AllPlaces : Dict → List (List (List ℕ)) → List (List ℕ) → Type 0
AllPlaces dict [] [] = Unit {0}
AllPlaces dict (ps ∷ samples) (rs ∷ columns) = Places dict ps rs × AllPlaces dict samples columns
AllPlaces dict _ _ = ⊥

-- The outer loop has run.
pub record AreColumns (dict : Dict) (samples : List (List (List ℕ))) (columns : List (List ℕ))
    (dict' : Dict) : Type 0 where
  pub numbering : IsNumbering dict'
  pub extends : Extends dict dict'
  pub placed : AllPlaces dict' samples columns

number_samples-AreColumns :
    (dict : Dict) (samples : List (List (List ℕ)))
    → IsNumbering dict
    → length (number_samples dict samples).1 < 2 ^ 32
    → AreColumns dict samples (number_samples dict samples).0 (number_samples dict samples).1
unfolding number_samples
number_samples-AreColumns dict [] v small = record {
  numbering = v;
  extends = Extends-refl dict;
  placed = tt;
}
number_samples-AreColumns dict (ps ∷ samples) v small =
    let dict' = (number_sample dict ps).1 in
    let longer = number_samples-longer dict' samples in
    let first = number_sample-IsColumn dict ps v (omega (arith, longer)) in
    let rest = number_samples-AreColumns dict' samples first.numbering small in
    record {
      numbering = rest.numbering;
      extends = Extends-trans first.extends rest.extends;
      placed = (Places-Extends ps (number_sample dict ps).0 rest.extends first.placed, rest.placed);
    }

empty-IsNumbering : IsNumbering []
empty-IsNumbering = record { injective = λ p q r e e'. ground arith; below = λ p r e. ground arith }

-- From no psid on.
pub numbered :
    (samples : List (List (List ℕ)))
    → length (number_samples [] samples).1 < 2 ^ 32
    → AreColumns [] samples (number_samples [] samples).0 (number_samples [] samples).1
numbered samples small = number_samples-AreColumns [] samples empty-IsNumbering small
