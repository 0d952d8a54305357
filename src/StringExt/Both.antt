-- ===== src/StringExt/Both.antt =====
-- `Split` of util/string_ext.hpp at two separators against splitting twice at one.
use mathlib.Core.Path.{ap₂}
use high_dimensional_flow_re.Base.{
  ℕ, suc, ◌+◌, ◌-◌, ◌≤◌, ◌≡◌, refl, ap, sym, ◌∙◌, false, List, [], ◌∷◌, ◌++◌, map, append_assoc,
  arith, ◌==◌, if◌then◌else◌, Bool-cases, inl, inr,
}
use high_dimensional_flow_re.Base.Files.{drop}
use high_dimensional_flow_re.StringExt.{substr, split_from, split, split_both_from, split_both}
use high_dimensional_flow_re.StringExt.Split.{take-suc}

-- The fields of a string of which the word `w` has been read, and so for the groups.
fields : ℕ → List ℕ → List ℕ → List (List ℕ)
fields sep w [] = w ∷ []
fields sep w (c ∷ cs) =
    let next = fields sep [] cs in
    let on = fields sep (w ++ (c ∷ [])) cs in if c == sep then w ∷ next else on

groups : ℕ → ℕ → List (List ℕ) → List ℕ → List ℕ → List (List (List ℕ))
groups first second buffer w [] = (buffer ++ (w ∷ [])) ∷ []
groups first second buffer w (c ∷ cs) =
    let field = groups first second (buffer ++ (w ∷ [])) [] cs in
    let group = groups first second [] [] cs in
    let on = groups first second buffer (w ++ (c ∷ [])) cs in
    if c == second then field else (if c == first then (buffer ++ (w ∷ [])) ∷ group else on)

-- The place of a loop in its string: the word from `begin` to `i`, and the rest.
record IsPlace (str : List ℕ) (begin i : ℕ) (ahead : List ℕ) : Type 0 where
  order : begin ≤ i
  rest : drop i str ≡ ahead
  word_rest : drop (i - begin) (drop begin str) ≡ ahead

module _ {str : List ℕ} {begin i c : ℕ} {ahead : List ℕ} (p : IsPlace str begin i (c ∷ ahead)) where
  after : drop (i + 1) str ≡ ahead
  after = let e : i + 1 ≡ suc i = omega arith in rw e ((take-suc str i c ahead p.rest).1)

  IsPlace-next : IsPlace str (i + 1) (i + 1) ahead
  IsPlace-next = record {
    order = omega arith;
    rest = after;
    word_rest = let e : i + 1 - (i + 1) ≡ 0 = omega arith in rw e after;
  }

  IsPlace-on : IsPlace str begin (i + 1) ahead
  IsPlace-on = record {
    order = omega (arith, p.order);
    rest = after;
    word_rest =
        let e : i + 1 - begin ≡ suc (i - begin) = omega (arith, p.order) in
        rw e ((take-suc (drop begin str) (i - begin) c ahead p.word_rest).1);
  }

  word_on : substr str begin (i + 1 - begin) ≡ substr str begin (i - begin) ++ (c ∷ [])
  word_on =
      let e : i + 1 - begin ≡ suc (i - begin) = omega (arith, p.order) in
      rw e ((take-suc (drop begin str) (i - begin) c ahead p.word_rest).0)

word_none : (str : List ℕ) (i : ℕ) → substr str i (i - i) ≡ []
word_none str i = let e : i - i ≡ 0 = omega arith in rw e refl

split_from-fields :
    (str : List ℕ) (sep begin i : ℕ) (ahead : List ℕ)
    → IsPlace str begin i ahead
    → split_from str sep begin i ahead ≡ fields sep (substr str begin (i - begin)) ahead
unfolding split_from fields
split_from-fields str sep begin i [] p = refl
split_from-fields str sep begin i (c ∷ ahead) p = ground (
  arith,
  split_from-fields str sep (i + 1) (i + 1) ahead (IsPlace-next p),
  split_from-fields str sep begin (i + 1) ahead (IsPlace-on p),
  word_on p,
  word_none str (i + 1),
)

split_both_from-groups :
    (str : List ℕ) (first second begin i : ℕ) (buffer : List (List ℕ)) (ahead : List ℕ)
    → IsPlace str begin i ahead
    → split_both_from str first second begin i buffer ahead
      ≡ groups first second buffer (substr str begin (i - begin)) ahead
unfolding split_both_from groups
split_both_from-groups str first second begin i buffer [] p = refl
split_both_from-groups str first second begin i buffer (c ∷ ahead) p = ground (
  arith,
  split_both_from-groups str first second (i + 1) (i + 1)
      (buffer ++ (substr str begin (i - begin) ∷ [])) ahead (IsPlace-next p),
  split_both_from-groups str first second (i + 1) (i + 1) [] ahead (IsPlace-next p),
  split_both_from-groups str first second begin (i + 1) buffer ahead (IsPlace-on p),
  word_on p,
  word_none str (i + 1),
)

IsPlace-start : (str : List ℕ) → IsPlace str 0 0 str
IsPlace-start str = record { order = omega arith; rest = refl; word_rest = refl }

split-fields : (str : List ℕ) (sep : ℕ) → split str sep ≡ fields sep [] str
unfolding split
split-fields str sep = split_from-fields str sep 0 0 str (IsPlace-start str)

map-split :
    (sep : ℕ) (parts : List (List ℕ))
    → map (fields sep []) parts ≡ map (λ part. split part sep) parts
map-split sep [] = refl
map-split sep (p ∷ parts) = ap₂ ◌∷◌ (sym (split-fields p sep)) (map-split sep parts)

-- A character more behind the fields.
push_char : ℕ → ℕ → List (List ℕ) → List (List ℕ)
push_char sep c [] = []
push_char sep c (v ∷ []) = if c == sep then v ∷ [] ∷ [] else (v ++ (c ∷ [])) ∷ []
push_char sep c (v ∷ u ∷ fs) = v ∷ push_char sep c (u ∷ fs)

push_char-append :
    (sep c : ℕ) (before : List (List ℕ)) (v : List ℕ)
    → push_char sep c (before ++ (v ∷ []))
      ≡ (if c == sep then before ++ (v ∷ [] ∷ []) else before ++ ((v ++ (c ∷ [])) ∷ []))
unfolding push_char
push_char-append sep c [] v = refl
push_char-append sep c (u ∷ []) v = ground (arith, push_char-append sep c [] v)
push_char-append sep c (u ∷ t ∷ before) v = ground (arith, push_char-append sep c (t ∷ before) v)

fields-cons :
    (sep : ℕ) (w cs : List ℕ) → (v : List ℕ) × (more : List (List ℕ)) × (fields sep w cs ≡ v ∷ more)
unfolding fields
fields-cons sep w [] = (w, [], refl)
fields-cons sep w (c ∷ cs) = elim (Bool-cases (c == sep)) [
  | inl found ↦ (w, fields sep [] cs, rw (fields, found) refl)
  | inr other ↦
      let (v, more, e) = fields-cons sep (w ++ (c ∷ [])) cs in (v, more, rw (fields, other) e)
]

push_char-fields :
    (sep c : ℕ) (v w cs : List ℕ)
    → push_char sep c (v ∷ fields sep w cs) ≡ v ∷ push_char sep c (fields sep w cs)
push_char-fields sep c v w cs =
    let (u, more, e) = fields-cons sep w cs in rw e (unfold push_char in refl)

fields_push :
    (sep c : ℕ) (w cs : List ℕ) → fields sep w (cs ++ (c ∷ [])) ≡ push_char sep c (fields sep w cs)
unfolding fields push_char
fields_push sep c w [] = refl
fields_push sep c w (x ∷ cs) = ground (
  arith,
  fields_push sep c [] cs,
  fields_push sep c (w ++ (x ∷ [])) cs,
  push_char-fields sep c w [] cs,
)

-- The groups of the rest, where the group so far has the fields of the buffer and the word `w`.
groups-fields :
    (first second : ℕ) (group : List ℕ) (buffer : List (List ℕ)) (w cs : List ℕ)
    → fields second [] group ≡ buffer ++ (w ∷ [])
    → (first == second) ≡ false
    → groups first second buffer w cs ≡ map (fields second []) (fields first group cs)
unfolding groups fields
groups-fields first second group buffer w [] e ne = ap (λ g. g ∷ []) (sym e)
groups-fields first second group buffer w (c ∷ cs) e ne =
    let more =
      fields_push second c [] group
      ∙ ap (push_char second c) e
      ∙ push_char-append second c buffer w in
    elim (Bool-cases (c == second)) [
      | inl field ↦
          let other : (c == first) ≡ false = ground arith in
          rw (groups, fields, field, other)
            (groups-fields first second (group ++ (c ∷ [])) (buffer ++ (w ∷ [])) [] cs
              (more ∙ rw field (sym (append_assoc buffer (w ∷ []) ([] ∷ [])))) ne)
      | inr inside ↦ elim (Bool-cases (c == first)) [
        | inl ends ↦
            rw (groups, fields, inside, ends)
              (ap (λ g. g ∷ groups first second [] [] cs) (sym e)
                ∙ ap (λ gs. fields second [] group ∷ gs)
                    (groups-fields first second [] [] [] cs refl ne))
        | inr on ↦
            rw (groups, fields, inside, on)
              (groups-fields first second (group ++ (c ∷ [])) buffer (w ++ (c ∷ [])) cs
                (more ∙ rw inside refl) ne)
      ]
    ]

-- `Split` at two separators that differ is `Split` at the first, and of each part at the second.
pub split_both_lem :
    (str : List ℕ) (first second : ℕ)
    → (first == second) ≡ false
    → split_both str first second ≡ map (λ part. split part second) (split str first)
unfolding split_both split
split_both_lem str first second ne =
    split_both_from-groups str first second 0 0 [] str (IsPlace-start str)
    ∙ groups-fields first second [] [] [] str (unfold fields in refl) ne
    ∙ map-split second (fields first [] str)
    ∙ ap (map (λ part. split part second))
        (sym (split_from-fields str first 0 0 str (IsPlace-start str)))
