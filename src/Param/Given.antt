-- ===== src/Param/Given.antt =====
-- The lines of the file of src/param.cc: which of them gives a setting.
use high_dimensional_flow_re.Base.{
  ◌≡◌, ap, sym, ◌∙◌, Option, none, some, List, [], ◌∷◌, ℕ, ltb, if◌then◌else◌, length, get_or,
  Bool-cases, inl, inr,
}
use high_dimensional_flow_re.Base.Maps.{Map, find, same, find-insert_new}
use high_dimensional_flow_re.Base.OrElse.{or_else, or_else_assoc, or_else-none}
use high_dimensional_flow_re.StringExt.{split, strip, to_lower}
use high_dimensional_flow_re.Param.{is_empty, is_comment, enter_setting, load_line, load_lines}

-- What a line gives to a setting: a name and a value that are not empty, around the sign `=`, in a
-- line that is no comment.
abbrev pub given_pair : List ℕ → List ℕ → List ℕ → Option (List ℕ)
given_pair setting name value =
    if is_empty name
    then none
    else (if is_empty value then none else (if same name setting then some value else none))

abbrev pub given : List ℕ → List ℕ → Option (List ℕ)
given setting line =
    let str = strip line in
    let items = split str b'=' in
    if is_empty str
    then none
    else (if is_comment str
        then none
        else (if ltb (length items) 2
            then none
            else given_pair setting (to_lower (strip (get_or items 0 [])))
                (strip (get_or items 1 []))))

-- The first line that gives the setting decides.
abbrev pub first_given : List ℕ → List (List ℕ) → Option (List ℕ)
first_given setting [] = none
first_given setting (line ∷ lines) = or_else (given setting line) (first_given setting lines)

module _ (setting : List ℕ) where
  enter_setting-find :
      (buffer : Map (List ℕ)) (name value : List ℕ)
      → find (enter_setting buffer name value) setting
        ≡ or_else (find buffer setting) (given_pair setting name value)
  enter_setting-find buffer name value = elim (Bool-cases (is_empty name)) [
    | inl e ↦ rw e (sym (or_else-none (find buffer setting)))
    | inr e ↦ elim (Bool-cases (is_empty value)) [
      | inl e' ↦ rw (e, e') (sym (or_else-none (find buffer setting)))
      | inr e' ↦ rw (e, e') (find-insert_new buffer name setting value)
    ]
  ]

  load_line-find :
      (buffer : Map (List ℕ)) (line : List ℕ)
      → find (load_line buffer line) setting ≡ or_else (find buffer setting) (given setting line)
  unfolding load_line
  load_line-find buffer line =
      let old = sym (or_else-none (find buffer setting)) in
      let items = split (strip line) b'=' in
      elim (Bool-cases (is_empty (strip line))) [
        | inl e ↦ rw (load_line, e) old
        | inr e ↦ elim (Bool-cases (is_comment (strip line))) [
          | inl e' ↦ rw (load_line, e, e') old
          | inr e' ↦ elim (Bool-cases (ltb (length items) 2)) [
            | inl e'' ↦ rw (load_line, e, e', e'') old
            | inr e'' ↦
                rw (load_line, e, e', e'')
                  (enter_setting-find buffer (to_lower (strip (get_or items 0 [])))
                    (strip (get_or items 1 [])))
          ]
        ]
      ]

  -- What the lines enter under a setting is what the first of them gives that gives it something.
  pub load_lines-find :
      (buffer : Map (List ℕ)) (lines : List (List ℕ))
      → find (load_lines buffer lines) setting
        ≡ or_else (find buffer setting) (first_given setting lines)
  unfolding load_lines
  load_lines-find buffer [] = sym (or_else-none (find buffer setting))
  load_lines-find buffer (line ∷ lines) =
      load_lines-find (load_line buffer line) lines
      ∙ ap (λ o. or_else o (first_given setting lines)) (load_line-find buffer line)
      ∙ sym (or_else_assoc (find buffer setting) (given setting line) (first_given setting lines))
