-- ===== src/QueryParser/Codes.antt =====
-- `Deserialize` of src/query_parser.cc: the code for a value, and the query that it makes.
use high_dimensional_flow_re.Base.{
  ℕ, suc, ◌+◌, ◌≡◌, refl, ap, sym, ◌∙◌, Bool, true, false, not, ◌&&◌, ◌||◌, some, List, [], ◌∷◌,
  ◌++◌, append_assoc, append-nil, arith, ltb, ◌==◌, if◌then◌else◌, length, Bool-cases, inl, inr,
}
use high_dimensional_flow_re.Base.Ints.{ℤ, pos, negsuc, is_negative}
use high_dimensional_flow_re.Base.Text.{codes}
use high_dimensional_flow_re.StringExt.{split, split_both, to_upper}
use high_dimensional_flow_re.StringExt.Split.{split-IsSplit}
use high_dimensional_flow_re.Numbers.{Numbers}
use high_dimensional_flow_re.QueryParser.{
  Json, QueryData, clear, hours_per_day, Parsed, ◌then◌, require, check_price, platform_of,
  read_hours, keep_nonempty, split_names, add_orientations, add_hours, deserialize,
}

-- The code of the first test that fails, and 0 if none does.
abbrev pub first_code : List (Bool × ℕ) → ℕ
first_code [] = 0
first_code ((test, code) ∷ checks) = let rest = first_code checks in if test then rest else code

-- The result of a part of `Deserialize`: the code of the tests ahead, and the query if all hold.
pub record Meets (checks : List (Bool × ℕ)) (expected : QueryData) (m : Parsed) : Type 0 where
  pub left : QueryData
  pub returns : m ≡ some (first_code checks, left)
  pub accepted : first_code checks ≡ 0 → left ≡ expected

Meets-end :
    {expected : QueryData} (qd : QueryData) → qd ≡ expected → Meets [] expected (some (0, qd))
Meets-end qd e = record { left = qd; returns = refl; accepted = λ _. e }

module _ {expected : QueryData} {checks : List (Bool × ℕ)} where
  Meets-pass :
      (code : ℕ) {m : Parsed} → Meets checks expected m → Meets ((true, code) ∷ checks) expected m
  Meets-pass code h = record { left = h.left; returns = h.returns; accepted = h.accepted }

  Meets-fail :
      (code : ℕ) (qd : QueryData)
      → Meets ((false, suc code) ∷ checks) expected (some (suc code, qd))
  Meets-fail code qd = record { left = qd; returns = refl; accepted = λ e. absurd (omega arith) }

  Meets-check :
      (test : Bool) (code : ℕ) (qd : QueryData) (m : Parsed) (k : QueryData → Parsed)
      → (test ≡ true → Meets checks expected (m then k))
      → Meets ((test, suc code) ∷ checks) expected (require test (suc code) qd m then k)
  Meets-check true code qd m k h = Meets-pass (suc code) (h refl)
  Meets-check false code qd m k h = Meets-fail code qd

  Meets-last :
      (test : Bool) (code : ℕ) (qd : QueryData) (m : Parsed)
      → (test ≡ true → Meets checks expected m)
      → Meets ((test, suc code) ∷ checks) expected (require test (suc code) qd m)
  Meets-last true code qd m h = Meets-pass (suc code) (h refl)
  Meets-last false code qd m h = Meets-fail code qd

  Meets-price :
      (price : ℤ) (qd : QueryData) (k : QueryData → Parsed)
      → Meets checks expected (k (record qd { price = price }))
      → Meets ((not (is_negative price), 11) ∷ checks) expected (check_price qd price then k)
  Meets-price (pos n) qd k h = Meets-pass 11 h
  Meets-price (negsuc n) qd k h = Meets-fail 10 (record qd { price = negsuc n })

-- The launch time is written in the digits 0 and 1, and the hours are the places of the ones.
abbrev pub is_bits : List ℕ → Bool
is_bits [] = true
is_bits (c ∷ buffer) = (c == b'1' || c == b'0') && is_bits buffer

abbrev pub ones_from : ℕ → List ℕ → List ℕ
ones_from i [] = []
ones_from i (c ∷ buffer) =
    let rest = ones_from (i + 1) buffer in if c == b'1' then i ∷ rest else rest

read_hours-ones :
    (i : ℕ) (buffer : List ℕ) (qd : QueryData)
    → is_bits buffer ≡ true
    → read_hours i buffer qd ≡ (0, record qd { hours = qd.hours ++ ones_from i buffer })
unfolding read_hours
read_hours-ones i [] qd h =
    ap (λ hours. (0, record qd { hours = hours })) (sym (append-nil qd.hours))
read_hours-ones i (c ∷ buffer) qd h = elim (Bool-cases (c == b'1')) [
  | inl one ↦
      rw (read_hours, one)
        (read_hours-ones (i + 1) buffer (record qd { hours = qd.hours ++ (i ∷ []) }) (ground arith)
          ∙ ap (λ hours. (0, record qd { hours = hours }))
              (append_assoc qd.hours (i ∷ []) (ones_from (i + 1) buffer)))
  | inr other ↦
      let nought : (c == b'0') ≡ true = ground arith in
      rw (read_hours, other, nought) (read_hours-ones (i + 1) buffer qd (ground arith))
]

read_hours_refused :
    (i : ℕ) (buffer : List ℕ) (qd : QueryData)
    → is_bits buffer ≡ false
    → (left : QueryData) × (read_hours i buffer qd ≡ (8, left))
unfolding read_hours
read_hours_refused i [] qd h = absurd (ground arith)
read_hours_refused i (c ∷ buffer) qd h = elim (Bool-cases (c == b'1')) [
  | inl one ↦
      rw (read_hours, one)
        (read_hours_refused (i + 1) buffer (record qd { hours = qd.hours ++ (i ∷ []) })
          (ground arith))
  | inr other ↦ elim (Bool-cases (c == b'0')) [
    | inl nought ↦
        rw (read_hours, other, nought) (read_hours_refused (i + 1) buffer qd (ground arith))
    | inr wrong ↦ rw (read_hours, other, wrong) (qd, refl)
  ]
]

Meets-hours :
    {expected : QueryData} {checks : List (Bool × ℕ)} (buffer : List ℕ) (qd : QueryData)
    (k : QueryData → Parsed)
    → Meets checks expected (k (record qd { hours = qd.hours ++ ones_from 0 buffer }))
    → Meets ((is_bits buffer, 8) ∷ checks) expected (some (read_hours 0 buffer qd) then k)
Meets-hours buffer qd k h = elim (Bool-cases (is_bits buffer)) [
  | inl bits ↦ rw (bits, read_hours-ones 0 buffer qd bits) (Meets-pass 8 h)
  | inr wrong ↦
      let (left, e) = read_hours_refused 0 buffer qd wrong in rw (wrong, e) (Meets-fail 7 left)
]

-- The names of a group stand in its second field, or in the only one.
abbrev pub names_of : List (List (List ℕ)) → List (List (List ℕ))
names_of [] = []
names_of ([] ∷ arrays) = names_of arrays
names_of ((name ∷ []) ∷ arrays) = split name b',' ∷ names_of arrays
names_of ((name ∷ field ∷ more) ∷ arrays) = split field b',' ∷ names_of arrays

split_names-push :
    (targetings : List (List (List ℕ))) (field : List ℕ)
    → split_names targetings field ≡ targetings ++ (split field b',' ∷ [])
split_names-push targetings field =
    let some_name = (split-IsSplit field b',').some_field in
    let test : ltb 0 (length (split field b',')) ≡ true = ground arith in rw test refl

add_orientations-names :
    (targetings arrays : List (List (List ℕ)))
    → add_orientations targetings arrays ≡ targetings ++ names_of arrays
unfolding add_orientations
add_orientations-names targetings [] = sym (append-nil targetings)
add_orientations-names targetings ([] ∷ arrays) = add_orientations-names targetings arrays
add_orientations-names targetings ((name ∷ []) ∷ arrays) =
    ap (λ t. add_orientations t arrays) (split_names-push targetings name)
    ∙ add_orientations-names (targetings ++ (split name b',' ∷ [])) arrays
    ∙ append_assoc targetings (split name b',' ∷ []) (names_of arrays)
add_orientations-names targetings ((name ∷ field ∷ more) ∷ arrays) =
    ap (λ t. add_orientations t arrays) (split_names-push targetings field)
    ∙ add_orientations-names (targetings ++ (split field b',' ∷ [])) arrays
    ∙ append_assoc targetings (split field b',' ∷ []) (names_of arrays)

module _ (d : Numbers) (json : Json d) where
  open d use {truncate}
  open json use {
    Value, is_object, member, is_double, as_double, is_int, as_int, is_string, as_string,
  }

  -- The tests of `Deserialize` in their order, for the price that the value has.
  abbrev pub checks_of : Value → ℤ → List (Bool × ℕ)
  checks_of value price =
      let launch_time = member value (codes "launchTime") in
      (is_object value, 2)
      ∷ (is_double (member value (codes "bidPrice")), 3)
      ∷ (not (is_negative price), 11)
      ∷ (is_int (member value (codes "bidType")), 4)
      ∷ (is_int (member value (codes "advertType")), 12)
      ∷ (is_string (member value (codes "schemaType")), 5)
      ∷ (is_string launch_time, 6)
      ∷ (length (as_string launch_time) == hours_per_day, 7)
      ∷ (is_bits (as_string launch_time), 8)
      ∷ (is_string (member value (codes "adposIdList")), 9)
      ∷ (is_string (member value (codes "orientation")), 10)
      ∷ []

  -- The query of a value that passes them.
  abbrev pub query_of : Value → ℤ → QueryData
  query_of value price =
      let hours = ones_from 0 (as_string (member value (codes "launchTime"))) in
      let groups = split_both (as_string (member value (codes "orientation"))) b'|' b':' in
      add_hours (record {
        price = price;
        bid_type = as_int (member value (codes "bidType"));
        advert_type = as_int (member value (codes "advertType"));
        platform = platform_of (to_upper (as_string (member value (codes "schemaType"))));
        hours = hours;
        targetings = names_of groups;
        psids = keep_nonempty (split (as_string (member value (codes "adposIdList"))) b',');
      })

  -- `Deserialize` returns the code of the first test that the value fails, and 0 if it fails none;
  -- then it leaves the query of the value, whatever the query was before. A price that is a number
  -- fits an `int` when its fraction is cut off.
  pub deserialize-Meets :
      (value : Value) (qd : QueryData) (price : ℤ)
      → truncate (as_double (member value (codes "bidPrice"))) ≡ some price
      → Meets (checks_of value price) (query_of value price) (deserialize d json value qd)
  unfolding deserialize
  deserialize-Meets value qd price fits =
      let groups = split_both (as_string (member value (codes "orientation"))) b'|' b':' in
      let launch_time = member value (codes "launchTime") in
      rw fits (
        Meets-last (is_object value) 1 (clear qd) _ (λ _.
          Meets-check (is_double (member value (codes "bidPrice"))) 2 (clear qd) _ _ (λ _.
            Meets-price price (clear qd) _ (
              Meets-check (is_int (member value (codes "bidType"))) 3 _ _ _ (λ _.
                Meets-check (is_int (member value (codes "advertType"))) 11 _ _ _ (λ _.
                  Meets-check (is_string (member value (codes "schemaType"))) 4 _ _ _ (λ _.
                    Meets-check (is_string launch_time) 5 _ _ _ (λ _.
                      Meets-check (length (as_string launch_time) == hours_per_day) 6 _ _ _ (λ _.
                        Meets-hours (as_string launch_time) _ _ (
                          Meets-check (is_string (member value (codes "adposIdList"))) 8 _ _ _ (λ _.
                            Meets-last (is_string (member value (codes "orientation"))) 9 _ _ (λ _.
                              Meets-end _ (rw (add_orientations-names [] groups) refl)))))))))))))
