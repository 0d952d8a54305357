-- ===== src/StringExt/Fields.antt =====
-- The fields of `Split` of util/string_ext.hpp are parts of the string.
use high_dimensional_flow_re.Base.{
  ℕ, zero, suc, ◌+◌, ◌-◌, ◌<◌, ◌^◌, List, [], ◌∷◌, arith, length, get_or, All, All-get_or,
  Bool-cases, inl, inr, ◌==◌,
}
use high_dimensional_flow_re.Base.Bytes.{IsByte}
use high_dimensional_flow_re.Base.Files.{take, drop}
use high_dimensional_flow_re.Base.Seek.{length-take, length-drop}
use high_dimensional_flow_re.StringExt.{substr, split_from, split}

-- A string of bytes with a length of 32 bits.
pub record IsText (str : List ℕ) : Type 0 where
  pub short : length str < 2 ^ 32
  pub bytes : All IsByte str

All-take : (n : ℕ) (xs : List ℕ) → All IsByte xs → All IsByte (take n xs)
All-take zero xs h = tt
All-take (suc n) [] h = tt
All-take (suc n) (x ∷ xs) h = (h.0, All-take n xs h.1)

All-drop : (n : ℕ) (xs : List ℕ) → All IsByte xs → All IsByte (drop n xs)
All-drop zero xs h = h
All-drop (suc n) [] h = tt
All-drop (suc n) (x ∷ xs) h = All-drop n xs h.1

substr-IsText : (str : List ℕ) (begin n : ℕ) → IsText str → IsText (substr str begin n)
substr-IsText str begin n h = record {
  short = omega (arith, length-take (drop begin str) n, length-drop str begin, h.short);
  bytes = All-take n (drop begin str) (All-drop begin str h.bytes);
}

split_from-IsText :
    (str : List ℕ) (sep begin i : ℕ) (ahead : List ℕ)
    → IsText str
    → All IsText (split_from str sep begin i ahead)
unfolding split_from
split_from-IsText str sep begin i [] h = (substr-IsText str begin (i - begin) h, tt)
split_from-IsText str sep begin i (c ∷ ahead) h = elim (Bool-cases (c == sep)) [
  | inl found ↦
      rw (split_from, found)
        (substr-IsText str begin (i - begin) h, split_from-IsText str sep (i + 1) (i + 1) ahead h)
  | inr other ↦ rw (split_from, other) (split_from-IsText str sep begin (i + 1) ahead h)
]

-- A field of a line.
pub field-IsText : (str : List ℕ) (sep i : ℕ) → IsText str → IsText (get_or (split str sep) i [])
unfolding split
field-IsText str sep i h =
    All-get_or IsText (split str sep) i [] (split_from-IsText str sep 0 0 str h)
      (record { short = omega arith; bytes = tt })
