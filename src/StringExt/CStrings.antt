-- ===== src/StringExt/CStrings.antt =====
-- The overloads of `Split` of util/string_ext.hpp for C strings.
use high_dimensional_flow_re.Base.{
  ℕ, zero, suc, ◌+◌, ◌-◌, ◌≤◌, ◌≡◌, refl, ap, false, Option, none, some, List, [], ◌∷◌, ◌++◌, arith,
  ◌==◌, if◌then◌else◌, ◌>>=◌, length, elem, Bool-cases, inl, inr,
}
use high_dimensional_flow_re.Base.Files.{take}
use high_dimensional_flow_re.StringExt.{substr, split_from, split, split_both_from, split_both}

-- The loops from the index `i` on, over what lies from the pointer on; `none` is a read behind it.
-- The byte 0 ends them.
split_c_from : List ℕ → ℕ → ℕ → ℕ → List ℕ → Option (List (List ℕ))
split_c_from str separator begin i [] = none
split_c_from str separator begin i (c ∷ ahead) =
    let next = split_c_from str separator (i + 1) (i + 1) ahead in
    let on = split_c_from str separator begin (i + 1) ahead in
    let field = substr str begin (i - begin) in
    if c == 0
    then some (field ∷ [])
    else (if c == separator then (next >>= λ fields. some (field ∷ fields)) else on)

pub split_c : List ℕ → ℕ → Option (List (List ℕ))
split_c str separator = split_c_from str separator 0 0 str

split_both_c_from : List ℕ → ℕ → ℕ → ℕ → ℕ → List (List ℕ) → List ℕ → Option (List (List (List ℕ)))
split_both_c_from str sep_first sep_second begin i buffer [] = none
split_both_c_from str sep_first sep_second begin i buffer (c ∷ ahead) =
    let full = buffer ++ (substr str begin (i - begin) ∷ []) in
    let field = split_both_c_from str sep_first sep_second (i + 1) (i + 1) full ahead in
    let group = split_both_c_from str sep_first sep_second (i + 1) (i + 1) [] ahead in
    let on = split_both_c_from str sep_first sep_second begin (i + 1) buffer ahead in
    if c == 0
    then some (full ∷ [])
    else (if c == sep_second
        then field
        else (if c == sep_first then (group >>= λ groups. some (full ∷ groups)) else on))

pub split_both_c : List ℕ → ℕ → ℕ → Option (List (List (List ℕ)))
split_both_c str sep_first sep_second = split_both_c_from str sep_first sep_second 0 0 [] str

-- A part of a string stays where more lies behind it.
take-append_front : (n : ℕ) (xs more : List ℕ) → n ≤ length xs → take n (xs ++ more) ≡ take n xs
take-append_front zero xs more h = refl
take-append_front (suc n) [] more h = absurd (omega arith)
take-append_front (suc n) (x ∷ xs) more h = ap (◌∷◌ x) (take-append_front n xs more (omega arith))

substr-append :
    (str more : List ℕ) (begin n : ℕ)
    → begin + n ≤ length str
    → substr (str ++ more) begin n ≡ substr str begin n
substr-append str more zero n h = take-append_front n str more (omega arith)
substr-append [] more (suc begin) zero h = refl
substr-append [] more (suc begin) (suc n) h = absurd (omega arith)
substr-append (x ∷ str) more (suc begin) n h = substr-append str more begin n (omega arith)

module _ (str rest : List ℕ) where
  abbrev memory : List ℕ
  memory = str ++ (0 ∷ rest)

  field_here :
      (begin i : ℕ)
      → begin ≤ i
      → i ≤ length str
      → substr memory begin (i - begin) ≡ substr str begin (i - begin)
  field_here begin i h within = substr-append str (0 ∷ rest) begin (i - begin) (omega arith)

  split_c_from-split :
      (sep begin i : ℕ) (ahead : List ℕ)
      → elem 0 ahead ≡ false
      → begin ≤ i
      → i + length ahead ≡ length str
      → split_c_from memory sep begin i (ahead ++ (0 ∷ rest))
        ≡ some (split_from str sep begin i ahead)
  unfolding split_c_from split_from
  split_c_from-split sep begin i [] free h e =
      ap (λ f. some (f ∷ [])) (field_here begin i h (omega arith))
  split_c_from-split sep begin i (c ∷ ahead) free h e =
      let here = field_here begin i h (omega arith) in
      let more : (c == 0) ≡ false = ground (arith, free) in
      let free' : elem 0 ahead ≡ false = ground (arith, free) in
      elim (Bool-cases (c == sep)) [
        | inl ends ↦
            let next =
              split_c_from-split sep (i + 1) (i + 1) ahead free' (omega arith) (omega arith) in
            rw (split_c_from, split_from, more, ends) (rw (next, here) refl)
        | inr goes ↦
            let on = split_c_from-split sep begin (i + 1) ahead free' (omega arith) (omega arith) in
            rw (split_c_from, split_from, more, goes) on
      ]

  split_both_c_from-split_both :
      (sep_first sep_second begin i : ℕ) (buffer : List (List ℕ)) (ahead : List ℕ)
      → elem 0 ahead ≡ false
      → begin ≤ i
      → i + length ahead ≡ length str
      → split_both_c_from memory sep_first sep_second begin i buffer (ahead ++ (0 ∷ rest))
        ≡ some (split_both_from str sep_first sep_second begin i buffer ahead)
  unfolding split_both_c_from split_both_from
  split_both_c_from-split_both sep_first sep_second begin i buffer [] free h e =
      ap (λ f. some ((buffer ++ (f ∷ [])) ∷ [])) (field_here begin i h (omega arith))
  split_both_c_from-split_both sep_first sep_second begin i buffer (c ∷ ahead) free h e =
      let here = field_here begin i h (omega arith) in
      let more : (c == 0) ≡ false = ground (arith, free) in
      let free' : elem 0 ahead ≡ false = ground (arith, free) in
      let full = buffer ++ (substr str begin (i - begin) ∷ []) in
      let next = λ (buffer' : List (List ℕ)).
        split_both_c_from-split_both sep_first sep_second (i + 1) (i + 1) buffer' ahead free'
          (omega arith) (omega arith) in
      elim (Bool-cases (c == sep_second)) [
        | inl ends ↦ rw (split_both_c_from, split_both_from, more, ends, here) (next full)
        | inr stays ↦ elim (Bool-cases (c == sep_first)) [
          | inl ends ↦
              rw (split_both_c_from, split_both_from, more, stays, ends, here) (rw (next []) refl)
          | inr goes ↦
              rw (split_both_c_from, split_both_from, more, stays, goes)
                (split_both_c_from-split_both sep_first sep_second begin (i + 1) buffer ahead free'
                  (omega arith) (omega arith))
        ]
      ]

-- Before the byte 0 that ends it, a C string is divided as the `std::string` of its characters is, at
-- one separator and at two, and nothing behind that byte is read.
pub split_c-split :
    (str rest : List ℕ) (sep sep_first sep_second : ℕ)
    → elem 0 str ≡ false
    → (split_c (str ++ (0 ∷ rest)) sep ≡ some (split str sep))
      × (split_both_c (str ++ (0 ∷ rest)) sep_first sep_second
          ≡ some (split_both str sep_first sep_second))
unfolding split_c split_both_c split split_both
split_c-split str rest sep sep_first sep_second free = (
  split_c_from-split str rest sep 0 0 str free (omega arith) (omega arith),
  split_both_c_from-split_both str rest sep_first sep_second 0 0 [] str free (omega arith)
      (omega arith),
)
