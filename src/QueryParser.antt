-- ===== src/QueryParser.antt =====
-- src/query_parser.cc and include/query_parser.h: from the text of a request to a query.
pub mod Codes
pub mod Accepted
use high_dimensional_flow_re.Base.{
  ℕ, zero, suc, ◌+◌, Bool, true, false, ◌&&◌, Option, none, some, List, [], ◌∷◌, ◌++◌, ltb, leb,
  ◌==◌, if◌then◌else◌, ◌>>=◌, length, get_or, get_elem?,
}
use high_dimensional_flow_re.Base.Ints.{ℤ, pos, negsuc, is_negative}
use high_dimensional_flow_re.Base.Maps.{same}
use high_dimensional_flow_re.Base.Decimal.{digits}
use high_dimensional_flow_re.Base.Text.{codes}
use high_dimensional_flow_re.StringExt.{split, split_both, to_upper}
use high_dimensional_flow_re.Numbers.{Numbers}

-- What the parser uses of the JSON library: `Reader::parse`, the subscript of a value by a name,
-- and the tests and conversions of a value.
pub record Json (d : Numbers) : Type 1 where
  pub Value : Type 0
  pub parse : List ℕ → Option Value
  pub is_object : Value → Bool
  pub member : Value → List ℕ → Value
  pub is_double : Value → Bool
  pub as_double : Value → d.Double
  pub is_int : Value → Bool
  pub as_int : Value → ℤ
  pub is_string : Value → Bool
  pub as_string : Value → List ℕ

pub record QueryData : Type 0 where
  pub price : ℤ
  pub bid_type : ℤ
  pub advert_type : ℤ
  pub platform : ℤ
  pub hours : List ℕ
  pub targetings : List (List (List ℕ))
  pub psids : List (List ℕ)

abbrev pub clear : QueryData → QueryData
clear qd = record {
  price = pos 0;
  bid_type = pos 0;
  advert_type = pos 0;
  platform = pos 0;
  hours = [];
  targetings = [];
  psids = [];
}

abbrev pub hours_per_day : ℕ
hours_per_day = 24

abbrev pub is_empty : {A : Type 0} → List A → Bool
is_empty [] = true
is_empty (x ∷ xs) = false

-- The code that `Deserialize` returns and the query that it leaves; `none` is undefined.
abbrev pub Parsed : Type 0
Parsed = Option (ℕ × QueryData)

-- Go on unless an error has been returned.
abbrev pub go_on : (QueryData → Parsed) → ℕ × QueryData → Parsed
go_on k (zero, qd) = k qd
go_on k (suc code, qd) = some (suc code, qd)

infixr 5 ◌then◌
abbrev pub ◌then◌ : Parsed → (QueryData → Parsed) → Parsed
none then k = none
some r then k = go_on k r

-- `if (!test) return code;`
abbrev pub require : Bool → ℕ → QueryData → Parsed → Parsed
require test code qd rest = if test then rest else some (code, qd)

-- The test of the price after its assignment.
abbrev pub check_price : QueryData → ℤ → Parsed
check_price qd price =
    let qd' = record qd { price = price } in
    if is_negative price then some (11, qd') else some (0, qd')

abbrev pub platform_of : List ℕ → ℤ
platform_of platform =
    if same platform (codes "MOBUNION")
    then pos 2
    else (if same platform (codes "WAP") then pos 1 else pos 0)

-- The loop over the characters of the launch time, from the index `i` on.
pub read_hours : ℕ → List ℕ → QueryData → ℕ × QueryData
read_hours i [] qd = (0, qd)
read_hours i (c ∷ buffer) qd =
    let qd' = if c == b'1' then record qd { hours = qd.hours ++ (i ∷ []) } else qd in
    let rest = read_hours (i + 1) buffer qd' in
    if c == b'1' then rest else (if c == b'0' then rest else (8, qd))

abbrev pub keep_nonempty : List (List ℕ) → List (List ℕ)
keep_nonempty [] = []
keep_nonempty (s ∷ array) = let rest = keep_nonempty array in if is_empty s then rest else s ∷ rest

-- The body of the loop over the orientation: a field is the names of a group, which `Split` counts.
abbrev pub split_names : List (List (List ℕ)) → List ℕ → List (List (List ℕ))
split_names targetings field =
    if ltb 0 (length (split field b',')) then targetings ++ (split field b',' ∷ []) else targetings

abbrev pub add_orientation : List (List (List ℕ)) → List (List ℕ) → List (List (List ℕ))
add_orientation targetings [] = targetings
add_orientation targetings (name ∷ []) = split_names targetings name
add_orientation targetings (name ∷ field ∷ more) = split_names targetings field

pub add_orientations : List (List (List ℕ)) → List (List (List ℕ)) → List (List (List ℕ))
add_orientations targetings [] = targetings
add_orientations targetings (array ∷ arrays) =
    add_orientations (add_orientation targetings array) arrays

-- `setw(2)` with `setfill('0')`.
abbrev pub two_digits : ℕ → List ℕ
two_digits hour = if ltb (length (digits hour)) 2 then b'0' ∷ digits hour else digits hour

abbrev pub format_hours : List ℕ → List (List ℕ)
format_hours [] = []
format_hours (hour ∷ hours) = two_digits hour ∷ format_hours hours

-- The end of `Deserialize`: the hours as one more group of targets.
abbrev pub add_hours : QueryData → QueryData
add_hours qd =
    if is_empty (format_hours qd.hours)
    then qd
    else record qd { targetings = qd.targetings ++ (format_hours qd.hours ∷ []) }

module _ (d : Numbers) (json : Json d) where
  open d use {truncate}
  open json use {
    Value, parse, is_object, member, is_double, as_double, is_int, as_int, is_string, as_string,
  }

  abbrev pub parse_price : Value → QueryData → Parsed
  parse_price value qd =
      let iter = member value (codes "bidPrice") in
      require (is_double iter) 3 qd (truncate (as_double iter) >>= check_price qd)

  abbrev pub parse_bid_type : Value → QueryData → Parsed
  parse_bid_type value qd =
      let iter = member value (codes "bidType") in
      require (is_int iter) 4 qd (some (0, record qd { bid_type = as_int iter }))

  abbrev pub parse_advert_type : Value → QueryData → Parsed
  parse_advert_type value qd =
      let iter = member value (codes "advertType") in
      require (is_int iter) 12 qd (some (0, record qd { advert_type = as_int iter }))

  abbrev pub parse_platform : Value → QueryData → Parsed
  parse_platform value qd =
      let iter = member value (codes "schemaType") in
      require (is_string iter) 5 qd
        (some (0, record qd { platform = platform_of (to_upper (as_string iter)) }))

  abbrev pub parse_hours : Value → QueryData → Parsed
  parse_hours value qd =
      let iter = member value (codes "launchTime") in
      let buffer = as_string iter in
      require (is_string iter) 6 qd
        (require (length buffer == hours_per_day) 7 qd (some (read_hours 0 buffer qd)))

  abbrev pub parse_psids : Value → QueryData → Parsed
  parse_psids value qd =
      let iter = member value (codes "adposIdList") in
      require (is_string iter) 9 qd
        (some (0, record qd { psids = qd.psids ++ keep_nonempty (split (as_string iter) b',') }))

  abbrev pub parse_orientation : Value → QueryData → Parsed
  parse_orientation value qd =
      let iter = member value (codes "orientation") in
      let groups = split_both (as_string iter) b'|' b':' in
      require (is_string iter) 10 qd
        (some (0, add_hours (record qd { targetings = add_orientations qd.targetings groups })))

  unfoldable pub deserialize : Value → QueryData → Parsed
  deserialize value qd = require (is_object value) 2 (clear qd) (
      parse_price value (clear qd) then λ q₁. parse_bid_type value q₁ then λ q₂.
      parse_advert_type value q₂ then λ q₃. parse_platform value q₃ then λ q₄.
      parse_hours value q₄ then λ q₅. parse_psids value q₅ then parse_orientation value)

  -- `Parse` of either string, once the library has read it.
  abbrev pub parse_value : QueryData → Option Value → Parsed
  parse_value qd none = some (1, qd)
  parse_value qd (some value) = deserialize value qd

  unfoldable pub parse_query : List ℕ → QueryData → Parsed
  parse_query json_str qd = parse_value qd (parse json_str)

abbrev pub err_msg : List (List ℕ)
err_msg =
    codes "OK"
    ∷ codes "json parse error"
    ∷ codes "object type error"
    ∷ codes "bidPrice error"
    ∷ codes "bidType error"
    ∷ codes "schemaType error"
    ∷ codes "launchTime error"
    ∷ codes "launchTime length error"
    ∷ codes "launchTime value error"
    ∷ codes "adposIdList error"
    ∷ codes "orientation error"
    ∷ codes "bidPrice value error"
    ∷ codes "advertType error"
    ∷ []

-- `GetErrMsg`; `none` is a read behind the array.
abbrev pub get_err_msg : ℕ → Option (List ℕ)
get_err_msg err_code = get_elem? err_msg err_code
