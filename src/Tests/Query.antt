-- ===== src/Tests/Query.antt =====
-- The theorems on queries, parameters and answers at small inputs.
use high_dimensional_flow_re.Base.{
  ℕ, ◌+◌, ◌-◌, ◌*◌, ◌/◌, ◌≡◌, refl, ap, ◌∙◌, true, false, some, List, [], ◌∷◌, ◌==◌, if◌then◌else◌,
}
use high_dimensional_flow_re.Base.Ints.{ℤ, pos, negsuc}
use high_dimensional_flow_re.Base.Text.{codes}
use high_dimensional_flow_re.Base.OrElse.{value_or}
use high_dimensional_flow_re.Base.Decimal.{atoi}
use high_dimensional_flow_re.StringExt.{split_both}
use high_dimensional_flow_re.Numbers.{Numbers}
use high_dimensional_flow_re.StepFunction.{StepFunction}
use high_dimensional_flow_re.Param.{Param, get_entry, deserialize_table}
use high_dimensional_flow_re.Param.Tables.{last_given, get_entry-deserialize_table}
use high_dimensional_flow_re.QueryParser.{Json, QueryData, parse_query, deserialize}
use high_dimensional_flow_re.QueryParser.Codes.{Meets, checks_of, query_of, deserialize-Meets}
use high_dimensional_flow_re.QueryParser.Accepted.{IsAccepted, parse_query-IsAccepted}
use high_dimensional_flow_re.Tests.Merge.{whole_numbers}

abbrev low_part : ℤ → ℕ
low_part (pos n) = n
low_part (negsuc n) = 0

-- Whole numbers, which are rounded down.
abbrev pub numbers : Numbers
numbers = record {
  doubles = whole_numbers;
  literal = λ m e. if e == 0 then m else 0;
  of_nat = λ n. n;
  of_int = low_part;
  float_product = λ n f. n * f;
  add = λ a b. a + b;
  sub = λ a b. a - b;
  mul = λ a b. a * b;
  div = λ a b. if b == 0 then 0 else a / b;
  pow = λ a b. a;
  ceil = λ a. a;
  truncate = λ a. some (pos a);
  strtod = λ str. low_part (atoi str);
}

get_entry-deserialize_table_example :
    get_entry numbers (deserialize_table numbers (codes "0,1,5|0,1,7|1")) (pos 0) (pos 1)
    ≡ value_or 0 (last_given numbers (pos 0) (pos 1) (split_both (codes "0,1,5|0,1,7|1") b'|' b','))
get_entry-deserialize_table_example =
    get_entry-deserialize_table numbers (codes "0,1,5|0,1,7|1") (pos 0) (pos 1)

abbrev pub no_steps : StepFunction whole_numbers
no_steps = record { values = []; splits = [] }

abbrev pub plain_param : Param numbers
plain_param = record {
  pv_use_delta = false;
  uv_use_delta = false;
  avg_ctr_use_pos = false;
  avg_bid_use_pos = false;
  win_rate_use_pos = false;
  win_rate_use_delta = false;
  uv_pv_min_rate = 0;
  uv_pv_max_rate = 1;
  max_win_rate = 1;
  pv_step_function = no_steps;
  uv_step_function = no_steps;
  win_rate_step_function = no_steps;
  platform_min_bids = [];
  win_rate_scales = [];
  win_rate_thresholds = [];
}

abbrev settings : List (List ℕ)
settings =
    codes "# rates"
    ∷ codes " Max_Win_Rate = 3"
    ∷ codes "max_win_rate=4"
    ∷ codes "pv_step_function=1|5|2"
    ∷ []

-- A value is the first character of its name, and 0 is the object.
abbrev text_of : ℕ → List ℕ
text_of value =
    if value == b'l'
    then codes "000000001000000000000001"
    else (if value == b'o' then codes "1:a,b|2:c" else codes "p1")

abbrev first_char : List ℕ → ℕ
first_char [] = 0
first_char (c ∷ cs) = c

abbrev pub sample_json : Json numbers
sample_json = record {
  Value = ℕ;
  parse = λ str. some 0;
  is_object = λ v. true;
  member = λ v name. first_char name;
  is_double = λ v. true;
  as_double = λ v. 30;
  is_int = λ v. true;
  as_int = λ v. pos 1;
  is_string = λ v. true;
  as_string = text_of;
}

abbrev empty_query : QueryData
empty_query = record {
  price = pos 0;
  bid_type = pos 0;
  advert_type = pos 0;
  platform = pos 0;
  hours = [];
  targetings = [];
  psids = [];
}

deserialize-Meets_example :
    Meets
      (checks_of numbers sample_json 0 (pos 30))
      (query_of numbers sample_json 0 (pos 30))
      (deserialize numbers sample_json 0 empty_query)
deserialize-Meets_example = deserialize-Meets numbers sample_json 0 empty_query (pos 30) refl

sample_parsed :
    parse_query numbers sample_json [] empty_query
    ≡ some (0, query_of numbers sample_json 0 (pos 30))
unfolding parse_query
sample_parsed =
    let m = deserialize-Meets numbers sample_json 0 empty_query (pos 30) refl in
    m.returns ∙ ap (λ q. some (0, q)) (m.accepted refl)

parse_query-IsAccepted_example : IsAccepted (query_of numbers sample_json 0 (pos 30))
parse_query-IsAccepted_example =
    parse_query-IsAccepted numbers sample_json [] empty_query
      (query_of numbers sample_json 0 (pos 30)) sample_parsed
