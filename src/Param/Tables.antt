-- ===== src/Param/Tables.antt =====
-- The tables of src/param.cc: what `Deserialize` enters and the getters of include/param.h find.
use high_dimensional_flow_re.Base.{
  ◌≡◌, refl, ap, ◌∙◌, ◌&&◌, Option, none, some, List, [], ◌∷◌, ℕ, arith, ltb, if◌then◌else◌, length,
  get_or, Bool-cases, Option-cases, inl, inr,
}
use high_dimensional_flow_re.Base.Ints.{ℤ}
use high_dimensional_flow_re.Base.IntMaps.{
  same_int, same_int_sound, find_int, put_int, find_int-put_int,
}
use high_dimensional_flow_re.Base.OrElse.{or_else, or_else_assoc, or_else-none, value_or}
use high_dimensional_flow_re.Base.Decimal.{strtol, int_of}
use high_dimensional_flow_re.StringExt.{split_both, strip}
use high_dimensional_flow_re.Numbers.{Numbers}
use high_dimensional_flow_re.Param.{
  Table, get_entry, inner_of, put_entry, deserialize_item, deserialize_items, deserialize_table,
}

module _ (d : Numbers) where
  open d use {Double, zero_double, strtod}

  abbrev find_entry : Table d → ℤ → ℤ → Option Double
  find_entry table platform adpos_type = find_int (inner_of d (find_int table platform)) adpos_type

  -- The value that an item gives to the platform and the type, by its three fields.
  abbrev pub given : ℤ → ℤ → List (List ℕ) → Option Double
  given platform adpos_type item =
      if ltb (length item) 3
      then none
      else (if same_int (int_of (strtol (strip (get_or item 0 [])))) platform
            && same_int (int_of (strtol (strip (get_or item 1 [])))) adpos_type
          then some (strtod (strip (get_or item 2 [])))
          else none)

  abbrev pub last_given : ℤ → ℤ → List (List (List ℕ)) → Option Double
  last_given platform adpos_type [] = none
  last_given platform adpos_type (item ∷ items) =
      or_else (last_given platform adpos_type items) (given platform adpos_type item)

  find_entry-put_entry :
      (table : Table d) (first second platform adpos_type : ℤ) (v : Double)
      → find_entry (put_entry d table first second v) platform adpos_type
        ≡ or_else
            (if same_int first platform && same_int second adpos_type then some v else none)
            (find_entry table platform adpos_type)
  unfolding put_entry
  find_entry-put_entry table first second platform adpos_type v =
      let inner = inner_of d (find_int table first) in
      elim (Bool-cases (same_int first platform)) [
        | inl here ↦ rw (← same_int_sound first platform here) (
            ground (
              arith,
              here,
              same_int_sound first platform here,
              find_int-put_int table first first (put_int inner second v),
              find_int-put_int inner second adpos_type v,
            ))
        | inr away ↦
            ground (arith, away, find_int-put_int table first platform (put_int inner second v))
      ]

  find_entry-item :
      (table : Table d) (item : List (List ℕ)) (platform adpos_type : ℤ)
      → find_entry (deserialize_item d table item) platform adpos_type
        ≡ or_else (given platform adpos_type item) (find_entry table platform adpos_type)
  unfolding deserialize_item
  find_entry-item table item platform adpos_type = elim (Bool-cases (ltb (length item) 3)) [
    | inl short ↦ rw (deserialize_item, short) refl
    | inr long ↦
        rw (deserialize_item, long)
          (find_entry-put_entry table (int_of (strtol (strip (get_or item 0 []))))
            (int_of (strtol (strip (get_or item 1 [])))) platform adpos_type
            (strtod (strip (get_or item 2 []))))
  ]

  find_entry-items :
      (table : Table d) (items : List (List (List ℕ))) (platform adpos_type : ℤ)
      → find_entry (deserialize_items d table items) platform adpos_type
        ≡ or_else (last_given platform adpos_type items) (find_entry table platform adpos_type)
  unfolding deserialize_items
  find_entry-items table [] platform adpos_type = refl
  find_entry-items table (item ∷ items) platform adpos_type =
      find_entry-items (deserialize_item d table item) items platform adpos_type
      ∙ ap (or_else (last_given platform adpos_type items))
          (find_entry-item table item platform adpos_type)
      ∙ or_else_assoc (last_given platform adpos_type items) (given platform adpos_type item)
          (find_entry table platform adpos_type)

  get_entry-value :
      (table : Table d) (platform adpos_type : ℤ)
      → get_entry d table platform adpos_type
        ≡ value_or zero_double (find_entry table platform adpos_type)
  get_entry-value table platform adpos_type = elim (Option-cases (find_int table platform)) [
    | inl e ↦ rw e refl
    | inr (inner, e) ↦ rw e refl
  ]

  -- A getter on a table that was read from a text answers a platform and a type with the value of
  -- the last item of three fields or more that names both, and with 0.0 if none does.
  pub get_entry-deserialize_table :
      (str : List ℕ) (platform adpos_type : ℤ)
      → get_entry d (deserialize_table d str) platform adpos_type
        ≡ value_or zero_double (last_given platform adpos_type (split_both str b'|' b','))
  unfolding deserialize_table
  get_entry-deserialize_table str platform adpos_type =
      let items = split_both str b'|' b',' in
      get_entry-value (deserialize_items d [] items) platform adpos_type
      ∙ ap (value_or zero_double) (
          find_entry-items [] items platform adpos_type
          ∙ or_else-none (last_given platform adpos_type items))
