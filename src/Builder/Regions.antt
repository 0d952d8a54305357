-- ===== src/Builder/Regions.antt =====
-- `ProcessRegion` of src/builder.cc: the codes of a region, one behind the other.
use high_dimensional_flow_re.Base.{
  ℕ, zero, suc, ◌+◌, ◌≤◌, ◌<◌, ◌≡◌, ◌≢◌, refl, ap, sym, ◌∙◌, List, [], ◌∷◌, ◌++◌, arith, ltb,
  length, Bool-cases, inl, inr,
}
use high_dimensional_flow_re.Base.Files.{drop}
use high_dimensional_flow_re.Base.Seek.{drop-drop, length-drop, length-take}
use high_dimensional_flow_re.StringExt.{substr}
use high_dimensional_flow_re.StringExt.Split.{take-drop}
use high_dimensional_flow_re.Builder.{region_length, cut_from, cut}

abbrev pub joined : List (List ℕ) → List ℕ
joined [] = []
joined (p ∷ pieces) = p ++ joined pieces

-- Every piece but the last has the length of a region, and the last is not longer, and not empty.
abbrev pub IsFull : List (List ℕ) → Type 0
IsFull [] = Unit {0}
IsFull (p ∷ []) = (0 < length p) × (length p ≤ region_length)
IsFull (p ∷ q ∷ pieces) = (length p ≡ region_length) × IsFull (q ∷ pieces)

IsFull-cons :
    (p : List ℕ) (pieces : List (List ℕ))
    → 0 < length p
    → length p ≤ region_length
    → (pieces ≢ [] → length p ≡ region_length)
    → IsFull pieces
    → IsFull (p ∷ pieces)
IsFull-cons p [] some_char short whole h = (some_char, short)
IsFull-cons p (q ∷ pieces) some_char short whole h = (whole (λ e. ground arith), h)

length-none : (xs : List ℕ) → length xs ≡ 0 → xs ≡ []
length-none [] e = refl
length-none (x ∷ xs) e = absurd (omega arith)

-- Behind the end nothing is cut.
cut_from-end :
    (fuel : ℕ) (item : List ℕ) (begin : ℕ) → length item ≤ begin → cut_from fuel item begin ≡ []
unfolding cut_from
cut_from-end zero item begin h = refl
cut_from-end (suc fuel) item begin h = ground arith

-- The string cut from `begin` on, in as many rounds as it has characters left.
pub record IsCut (str : List ℕ) (pieces : List (List ℕ)) : Type 0 where
  pub whole : joined pieces ≡ str
  pub full : IsFull pieces

cut_from-IsCut :
    (fuel : ℕ) (item : List ℕ) (begin : ℕ)
    → length item ≤ begin + fuel
    → IsCut (drop begin item) (cut_from fuel item begin)
unfolding cut_from
cut_from-IsCut zero item begin h = record {
  whole = sym (length-none (drop begin item) (omega (arith, length-drop item begin)));
  full = tt;
}
cut_from-IsCut (suc fuel) item begin h = elim (Bool-cases (ltb begin (length item))) [
  | inl inside ↦
      let p = substr item begin region_length in
      let left = length-drop item begin in
      let size = length-take (drop begin item) region_length in
      let rest = cut_from-IsCut fuel item (begin + region_length) (omega arith) in
      rw (cut_from, inside)
        (record {
          whole =
              ap (λ xs. p ++ xs) (rest.whole ∙ sym (drop-drop item begin region_length))
              ∙ take-drop (drop begin item) region_length;
          full =
              IsFull-cons p (cut_from fuel item (begin + region_length))
                (ground (arith, left, size)) (ground (arith, left, size))
                (λ more. elim (Bool-cases (ltb (begin + region_length) (length item))) [
                  | inl on ↦ ground (arith, left, size)
                  | inr over ↦
                      absurd (more (cut_from-end fuel item (begin + region_length) (ground arith)))
                ])
                rest.full;
        })
  | inr outside ↦
      rw (cut_from, outside)
        (record {
          whole = sym (length-none (drop begin item) (ground (arith, length-drop item begin)));
          full = tt;
        })
]

-- The loop of `ProcessRegion` ends, within as many rounds as the item has characters: the pieces
-- joined are the item, every piece but the last has six characters, and the last has one to six.
pub cut-IsCut : (item : List ℕ) → IsCut item (cut item)
unfolding cut
cut-IsCut item = cut_from-IsCut (length item) item 0 (omega arith)
