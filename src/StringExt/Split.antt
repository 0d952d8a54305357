-- ===== src/StringExt/Split.antt =====
-- `Split` of util/string_ext.hpp against joining the fields again.
use high_dimensional_flow_re.Base.{
  ℕ, zero, suc, ◌+◌, ◌-◌, ◌≤◌, ◌<◌, ◌≡◌, refl, ap, sym, ◌∙◌, false, ◌||◌, List, [], ◌∷◌, ◌++◌,
  append-nil, arith, ◌==◌, ==_iff, length, elem, All, Bool-cases, inl, inr,
}
use high_dimensional_flow_re.Base.Files.{take, drop}
use high_dimensional_flow_re.StringExt.{substr, split_from, split}

-- The fields with the separator between them.
abbrev pub join : ℕ → List (List ℕ) → List ℕ
join sep [] = []
join sep (f ∷ []) = f
join sep (f ∷ g ∷ fs) = f ++ (sep ∷ join sep (g ∷ fs))

-- The fields of the string, which the separator divides.
pub record IsSplit (sep : ℕ) (str : List ℕ) (fields : List (List ℕ)) : Type 0 where
  pub joined : join sep fields ≡ str
  pub free : All (λ f. elem sep f ≡ false) fields
  pub some_field : 0 < length fields

-- Taking one character more.
pub take-suc :
    (xs : List ℕ) (n : ℕ) (c : ℕ) (cs : List ℕ)
    → drop n xs ≡ c ∷ cs
    → (take (suc n) xs ≡ take n xs ++ (c ∷ [])) × (drop (suc n) xs ≡ cs)
take-suc [] zero c cs e = ground arith
take-suc [] (suc n) c cs e = ground arith
take-suc (x ∷ xs) zero c cs e = ground (arith, e)
take-suc (x ∷ xs) (suc n) c cs e = let (more, on) = take-suc xs n c cs e in (ap (◌∷◌ x) more, on)

pub take-drop : (xs : List ℕ) (n : ℕ) → take n xs ++ drop n xs ≡ xs
take-drop xs zero = refl
take-drop [] (suc n) = refl
take-drop (x ∷ xs) (suc n) = ap (◌∷◌ x) (take-drop xs n)

join-cons :
    (sep : ℕ) (f : List ℕ) (fs : List (List ℕ))
    → 0 < length fs
    → join sep (f ∷ fs) ≡ f ++ (sep ∷ join sep fs)
join-cons sep f [] h = absurd (omega arith)
join-cons sep f (g ∷ fs) h = refl

elem-push : (sep c : ℕ) (w : List ℕ) → elem sep (w ++ (c ∷ [])) ≡ (elem sep w || sep == c)
elem-push sep c [] = ground arith
elem-push sep c (x ∷ w) = ground (arith, elem-push sep c w)

-- The fields from `begin` on, of which the first has been read up to `i` without a separator.
split_from-IsSplit :
    (str : List ℕ) (sep begin i : ℕ) (ahead : List ℕ)
    → begin ≤ i
    → drop i str ≡ ahead
    → drop (i - begin) (drop begin str) ≡ ahead
    → elem sep (substr str begin (i - begin)) ≡ false
    → IsSplit sep (drop begin str) (split_from str sep begin i ahead)
unfolding split_from
split_from-IsSplit str sep begin i [] h e e' free = record {
  joined =
      sym (append-nil (take (i - begin) (drop begin str)))
      ∙ ap (λ xs. take (i - begin) (drop begin str) ++ xs) (sym e')
      ∙ take-drop (drop begin str) (i - begin);
  free = (free, tt);
  some_field = omega arith;
}
split_from-IsSplit str sep begin i (c ∷ ahead) h e e' free =
    let whole = take-drop (drop begin str) (i - begin) in
    let place : i + 1 ≡ suc i = omega arith in
    let on_place : i + 1 - begin ≡ suc (i - begin) = omega arith in
    let none_read : i + 1 - (i + 1) ≡ 0 = omega arith in
    let (longer, behind) = take-suc (drop begin str) (i - begin) c ahead e' in
    let next_ahead : drop (i + 1) str ≡ ahead = rw place ((take-suc str i c ahead e).1) in
    elim (Bool-cases (c == sep)) [
      | inl found ↦
          let rest =
            split_from-IsSplit str sep (i + 1) (i + 1) ahead (omega arith) next_ahead
              (rw none_read next_ahead) (rw none_read refl) in
          let same_char : c ≡ sep = (==_iff c sep).0 found in
          rw (split_from, found)
            (record {
              joined =
                  join-cons sep (substr str begin (i - begin))
                    (split_from str sep (i + 1) (i + 1) ahead) rest.some_field
                  ∙ ap (λ t. substr str begin (i - begin) ++ t)
                      (ap (◌∷◌ sep) (rest.joined ∙ next_ahead)
                        ∙ ap (λ k. k ∷ ahead) (sym same_char)
                        ∙ sym e')
                  ∙ whole;
              free = (free, rest.free);
              some_field = omega arith;
            })
      | inr other ↦
          rw (split_from, other)
            (split_from-IsSplit str sep begin (i + 1) ahead (omega arith) next_ahead
              (rw on_place behind)
              (rw on_place (
                rw longer (
                  elem-push sep c (take (i - begin) (drop begin str))
                  ∙ ground (arith, free, other)))))
    ]

-- `Split` divides a string into fields without the separator, at least one, which joined by the
-- separator are the string again.
pub split-IsSplit : (str : List ℕ) (sep : ℕ) → IsSplit sep str (split str sep)
unfolding split
split-IsSplit str sep = split_from-IsSplit str sep 0 0 str (omega arith) refl refl refl
