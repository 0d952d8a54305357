-- ===== src/UvMergeBitmap/Columns.antt =====
-- What the numbers of the psids say of the columns.
use high_dimensional_flow_re.Base.{
  ℕ, zero, suc, ◌≡◌, ◌≢◌, refl, ap, true, none, some, List, [], ◌∷◌, arith, length, elem, all_below,
  all_lists_below, get_or, Bool-cases, inl, inr,
}
use high_dimensional_flow_re.Base.Maps.{Dict, find, same, same_sound, same_refl, elem_string}
use high_dimensional_flow_re.UvMergeBitmap.Numbering.{IsNumbering, Places, AllPlaces}

module _ {dict : Dict} (v : IsNumbering dict) where
  -- A number stands in the column exactly where its psid stands in the sample.
  elem-Places :
      (ps : List (List ℕ)) (rs : List ℕ) (p : List ℕ) (r : ℕ)
      → Places dict ps rs
      → find dict p ≡ some r
      → elem r rs ≡ elem_string p ps
  elem-Places [] [] p r h e = refl
  elem-Places [] (s ∷ rs) p r h e = absurd h
  elem-Places (q ∷ ps) [] p r h e = absurd h
  elem-Places (q ∷ ps) (s ∷ rs) p r h e = elim (Bool-cases (same p q)) [
    | inl here ↦
        let found : find dict p ≡ some s = rw (same_sound p q here) h.0 in
        let one : r ≡ s = ground (arith, e, found) in rw (here, one) (ground arith)
    | inr other ↦
        let apart : r ≢ s = λ one.
          let found : find dict q ≡ some r = rw one h.0 in
          let equal : p ≡ q = v.injective p q r e found in
          let reflexive = same_refl p in
          absurd (ground (arith, rw equal at (other), same_refl q)) in
        ground (arith, other, apart, elem-Places ps rs p r h.1 e)
  ]

  below-Places :
      (ps : List (List ℕ)) (rs : List ℕ) → Places dict ps rs → all_below (length dict) rs ≡ true
  below-Places [] [] h = refl
  below-Places [] (s ∷ rs) h = absurd h
  below-Places (q ∷ ps) [] h = absurd h
  below-Places (q ∷ ps) (s ∷ rs) h = ground (arith, v.below q s h.0, below-Places ps rs h.1)

  pub below-AllPlaces :
      (samples : List (List (List ℕ))) (columns : List (List ℕ))
      → AllPlaces dict samples columns
      → all_lists_below (length dict) columns ≡ true
  below-AllPlaces [] [] h = refl
  below-AllPlaces [] (rs ∷ columns) h = absurd h
  below-AllPlaces (ps ∷ samples) [] h = absurd h
  below-AllPlaces (ps ∷ samples) (rs ∷ columns) h =
      ground (arith, below-Places ps rs h.0, below-AllPlaces samples columns h.1)

  pub elem-AllPlaces :
      (samples : List (List (List ℕ))) (columns : List (List ℕ)) (c : ℕ) (p : List ℕ) (r : ℕ)
      → AllPlaces dict samples columns
      → find dict p ≡ some r
      → elem r (get_or columns c []) ≡ elem_string p (get_or samples c [])
  elem-AllPlaces [] [] c p r h e = refl
  elem-AllPlaces [] (rs ∷ columns) c p r h e = absurd h
  elem-AllPlaces (ps ∷ samples) [] c p r h e = absurd h
  elem-AllPlaces (ps ∷ samples) (rs ∷ columns) zero p r h e = elem-Places ps rs p r h.0 e
  elem-AllPlaces (ps ∷ samples) (rs ∷ columns) (suc c) p r h e =
      elem-AllPlaces samples columns c p r h.1 e

-- There are as many columns as samples, and every psid of a sample has a number.
pub length-AllPlaces :
    (dict : Dict) (samples : List (List (List ℕ))) (columns : List (List ℕ))
    → AllPlaces dict samples columns
    → length columns ≡ length samples
length-AllPlaces dict [] [] h = refl
length-AllPlaces dict [] (rs ∷ columns) h = absurd h
length-AllPlaces dict (ps ∷ samples) [] h = absurd h
length-AllPlaces dict (ps ∷ samples) (rs ∷ columns) h =
    ap suc (length-AllPlaces dict samples columns h.1)

find-Places :
    (dict : Dict) (ps : List (List ℕ)) (rs : List ℕ) (p : List ℕ)
    → Places dict ps rs
    → elem_string p ps ≡ true
    → find dict p ≢ none
find-Places dict [] [] p h e = ground arith
find-Places dict [] (s ∷ rs) p h e = absurd h
find-Places dict (q ∷ ps) [] p h e = absurd h
find-Places dict (q ∷ ps) (s ∷ rs) p h e = elim (Bool-cases (same p q)) [
  | inl here ↦ rw (same_sound p q here) (λ none_found. ground (arith, h.0, none_found))
  | inr other ↦ find-Places dict ps rs p h.1 (ground arith)
]

pub find-AllPlaces :
    (dict : Dict) (samples : List (List (List ℕ))) (columns : List (List ℕ)) (c : ℕ) (p : List ℕ)
    → AllPlaces dict samples columns
    → elem_string p (get_or samples c []) ≡ true
    → find dict p ≢ none
find-AllPlaces dict [] [] c p h e = ground arith
find-AllPlaces dict [] (rs ∷ columns) c p h e = absurd h
find-AllPlaces dict (ps ∷ samples) [] c p h e = absurd h
find-AllPlaces dict (ps ∷ samples) (rs ∷ columns) zero p h e = find-Places dict ps rs p h.0 e
find-AllPlaces dict (ps ∷ samples) (rs ∷ columns) (suc c) p h e =
    find-AllPlaces dict samples columns c p h.1 e
