-- ===== src/QueryParser/Accepted.antt =====
-- `Parse` of src/query_parser.cc: what an accepted query holds.
use mathlib.Core.Option.{some-injective, none-ne-some}
use high_dimensional_flow_re.Base.{
  ℕ, suc, ◌+◌, ◌≤◌, ◌<◌, ◌≡◌, ◌≢◌, refl, ap, sym, ◌∙◌, false, Option, none, some, List, [], ◌∷◌,
  ◌++◌, arith, ◌==◌, length, get_or, get_elem?-eq-get_or, All, Bool-cases, Option-cases, inl, inr,
}
use high_dimensional_flow_re.Base.Ints.{ℤ, pos, is_negative}
use high_dimensional_flow_re.Base.Maps.{same}
use high_dimensional_flow_re.Base.Text.{codes}
use high_dimensional_flow_re.StringExt.{split, split_both, to_upper}
use high_dimensional_flow_re.StringExt.Split.{split-IsSplit}
use high_dimensional_flow_re.Numbers.{Numbers}
use high_dimensional_flow_re.QueryParser.{
  Json, QueryData, clear, hours_per_day, platform_of, keep_nonempty, format_hours, is_empty,
  deserialize, parse_value, parse_query, get_err_msg, err_msg,
}
use high_dimensional_flow_re.QueryParser.Codes.{
  first_code, ones_from, names_of, checks_of, query_of, deserialize-Meets,
}

-- The hours of a list lie from `i` up to `n`, and each is later than the one before.
abbrev pub IsRising : ℕ → ℕ → List ℕ → Type 0
IsRising i n [] = Unit {0}
IsRising i n (hour ∷ hours) = (i ≤ hour) × (hour < n) × IsRising (hour + 1) n hours

pub record IsAccepted (qd : QueryData) : Type 0 where
  pub price : is_negative qd.price ≡ false
  pub platform : (n : ℕ) × (qd.platform ≡ pos n) × (n ≤ 2)
  pub hours : IsRising 0 hours_per_day qd.hours
  pub psids : All (λ psid. psid ≢ []) qd.psids
  pub targetings : All (λ names. names ≢ []) qd.targetings

IsRising-later : (i j n : ℕ) (hours : List ℕ) → i ≤ j → IsRising j n hours → IsRising i n hours
IsRising-later i j n [] h r = tt
IsRising-later i j n (hour ∷ hours) h r = (omega arith, r.1, r.2)

ones_from-IsRising : (i : ℕ) (buffer : List ℕ) → IsRising i (i + length buffer) (ones_from i buffer)
ones_from-IsRising i [] = tt
ones_from-IsRising i (c ∷ buffer) =
    let bound : i + 1 + length buffer ≡ i + suc (length buffer) = omega arith in
    let rest : IsRising (i + 1) (i + suc (length buffer)) (ones_from (i + 1) buffer) =
      rw (← bound) (ones_from-IsRising (i + 1) buffer) in
    elim (Bool-cases (c == b'1')) [
      | inl one ↦ rw one (omega arith, omega arith, rest)
      | inr other ↦ rw other (
          IsRising-later i (i + 1) (i + suc (length buffer)) (ones_from (i + 1) buffer)
            (omega arith) rest)
    ]

keep_nonempty-All : (array : List (List ℕ)) → All (λ s. s ≢ []) (keep_nonempty array)
keep_nonempty-All [] = tt
keep_nonempty-All ([] ∷ array) = keep_nonempty-All array
keep_nonempty-All ((c ∷ s) ∷ array) = ((λ e. ground arith), keep_nonempty-All array)

platform_of-low : (platform : List ℕ) → (n : ℕ) × (platform_of platform ≡ pos n) × (n ≤ 2)
platform_of-low platform = elim (Bool-cases (same platform (codes "MOBUNION"))) [
  | inl e ↦ rw e (2, refl, omega arith)
  | inr e ↦ elim (Bool-cases (same platform (codes "WAP"))) [
    | inl e' ↦ rw (e, e') (1, refl, omega arith)
    | inr e' ↦ rw (e, e') (0, refl, omega arith)
  ]
]

split_some : (field : List ℕ) → split field b',' ≢ []
split_some field e =
    let h = (split-IsSplit field b',').some_field in
    let none_left = ap length e in omega (arith, h, none_left)

names_of-All : (arrays : List (List (List ℕ))) → All (λ names. names ≢ []) (names_of arrays)
names_of-All [] = tt
names_of-All ([] ∷ arrays) = names_of-All arrays
names_of-All ((name ∷ []) ∷ arrays) = (split_some name, names_of-All arrays)
names_of-All ((name ∷ field ∷ more) ∷ arrays) = (split_some field, names_of-All arrays)

All-push :
    {A : Type 0} (P : A → Type 0) (xs : List A) (x : A) → All P xs → P x → All P (xs ++ (x ∷ []))
All-push P [] x h p = (p, tt)
All-push P (y ∷ xs) x h p = (h.0, All-push P xs x h.1 p)

module _ (d : Numbers) (json : Json d) where
  open d use {truncate}
  open json use {Value, parse, is_object, member, is_double, as_double, as_string}

  query_of-IsAccepted :
      (value : Value) (price : ℤ)
      → first_code (checks_of d json value price) ≡ 0
      → IsAccepted (query_of d json value price)
  query_of-IsAccepted value price e =
      let launch_time = as_string (member value (codes "launchTime")) in
      let groups = split_both (as_string (member value (codes "orientation"))) b'|' b':' in
      let hours = ones_from 0 launch_time in
      let length_right : 0 + length launch_time ≡ 24 = ground (arith, e) in
      let high : is_negative price ≡ false = ground (arith, e) in
      let rising : IsRising 0 24 hours = rw (← length_right) (ones_from-IsRising 0 launch_time) in
      let low = platform_of-low (to_upper (as_string (member value (codes "schemaType")))) in
      let named = keep_nonempty-All (split (as_string (member value (codes "adposIdList"))) b',') in
      elim (Bool-cases (is_empty (format_hours hours))) [
        | inl no_hour ↦ rw no_hour (record {
          price = high;
          platform = low;
          hours = rising;
          psids = named;
          targetings = names_of-All groups;
        })
        | inr some_hour ↦ rw some_hour (record {
          price = high;
          platform = low;
          hours = rising;
          psids = named;
          targetings =
              All-push (λ names. names ≢ []) (names_of groups) (format_hours hours)
                (names_of-All groups) (λ e'. absurd (ground (arith, some_hour, ap is_empty e')));
        })
      ]

  -- What a parse can return.
  record IsResult (r : ℕ × QueryData) : Type 0 where
    known : r.0 < 13
    accepted : r.0 ≡ 0 → IsAccepted r.1

  refused :
      (qd : QueryData) (c : ℕ) (r : ℕ × QueryData) → c < 12 → some (suc c, qd) ≡ some r → IsResult r
  refused qd c r h e =
      rw (← some-injective (suc c, qd) r e)
        (record { known = omega arith; accepted = λ z. absurd (omega arith) })

  deserialize-IsResult :
      (value : Value) (qd : QueryData) (r : ℕ × QueryData)
      → deserialize d json value qd ≡ some r
      → IsResult r
  unfolding deserialize
  deserialize-IsResult value qd r e =
      elim (Option-cases (truncate (as_double (member value (codes "bidPrice"))))) [
        | inr (price, fits) ↦
            let m = deserialize-Meets d json value qd price fits in
            let same_result =
              some-injective (first_code (checks_of d json value price), m.left) r
                (sym m.returns ∙ e) in
            rw (← same_result) (record {
              known = ground arith;
              accepted = λ z. rw (m.accepted z) (query_of-IsAccepted value price z);
            })
        | inl missing ↦ elim (Bool-cases (is_object value)) [
          | inr plain ↦
              refused (clear qd) 1 r (omega arith) (sym (rw (deserialize, plain) refl) ∙ e)
          | inl object ↦ elim (Bool-cases (is_double (member value (codes "bidPrice")))) [
            | inr other ↦
                refused (clear qd) 2 r (omega arith)
                  (sym (rw (deserialize, object, other) refl) ∙ e)
            | inl double ↦
                absurd (none-ne-some r (sym (rw (deserialize, object, double, missing) refl) ∙ e))
          ]
        ]
      ]

  parse_value-IsResult :
      (value : Option Value) (qd : QueryData) (r : ℕ × QueryData)
      → parse_value d json qd value ≡ some r
      → IsResult r
  parse_value-IsResult none qd r e = refused qd 0 r (omega arith) e
  parse_value-IsResult (some value) qd r e = deserialize-IsResult value qd r e

  -- A query that `Parse` accepts with code 0 has a price that is not negative, one of the three
  -- platforms, hours of a day in rising order, and no empty ad position or group of targets.
  pub parse_query-IsAccepted :
      (json_str : List ℕ) (qd accepted : QueryData)
      → parse_query d json json_str qd ≡ some (0, accepted)
      → IsAccepted accepted
  unfolding parse_query
  parse_query-IsAccepted json_str qd accepted e =
      (parse_value-IsResult (parse json_str) qd (0, accepted) e).accepted refl

  -- Every code that `Parse` returns has a message: `GetErrMsg` does not read behind its array.
  pub get_err_msg-parse_query :
      (json_str : List ℕ) (qd left : QueryData) (code : ℕ)
      → parse_query d json json_str qd ≡ some (code, left)
      → (msg : List ℕ) × (get_err_msg code ≡ some msg)
  unfolding parse_query
  get_err_msg-parse_query json_str qd left code e =
      let r = parse_value-IsResult (parse json_str) qd (code, left) e in
      (get_or err_msg code [], get_elem?-eq-get_or err_msg code [] r.known)
