-- ===== src/Param.antt =====
-- src/param.cc and include/param.h: the parameters of the service and their file.
pub mod Given
pub mod Steps
pub mod Settings
pub mod Tables
use high_dimensional_flow_re.Base.{
  ℕ, zero, suc, ◌+◌, ◌%◌, Bool, true, false, Option, none, some, List, [], ◌∷◌, ltb, ◌==◌,
  if◌then◌else◌, length, get_or,
}
use high_dimensional_flow_re.Base.Ints.{ℤ, pos, negsuc}
use high_dimensional_flow_re.Base.Maps.{Map, find, same, insert_new}
use high_dimensional_flow_re.Base.IntMaps.{find_int, put_int}
use high_dimensional_flow_re.Base.Decimal.{strtol, int_of}
use high_dimensional_flow_re.Base.Text.{codes}
use high_dimensional_flow_re.Base.OrElse.{value_or}
use high_dimensional_flow_re.StringExt.{split, split_both, strip, to_lower}
use high_dimensional_flow_re.StepFunction.{StepFunction, set_values, set_splits, get_value}
use high_dimensional_flow_re.StepFunction
use high_dimensional_flow_re.Numbers.{Numbers}

-- The settings that a file gives, by their names.
abbrev pub is_empty : List ℕ → Bool
is_empty [] = true
is_empty (c ∷ cs) = false

abbrev pub is_comment : List ℕ → Bool
is_comment [] = false
is_comment (c ∷ cs) = c == b'#'

-- What the loop of `Load` enters.
abbrev pub enter_setting : Map (List ℕ) → List ℕ → List ℕ → Map (List ℕ)
enter_setting buffer name value =
    if is_empty name
    then buffer
    else (if is_empty value then buffer else insert_new buffer name value)

-- The body of the loop of `Load`.
pub load_line : Map (List ℕ) → List ℕ → Map (List ℕ)
load_line buffer line =
    let str = strip line in
    let items = split str b'=' in
    if is_empty str
    then buffer
    else (if is_comment str
        then buffer
        else (if ltb (length items) 2
            then buffer
            else enter_setting buffer (to_lower (strip (get_or items 0 [])))
                (strip (get_or items 1 []))))

unfoldable pub load_lines : Map (List ℕ) → List (List ℕ) → Map (List ℕ)
load_lines buffer [] = buffer
load_lines buffer (line ∷ lines) = load_lines (load_line buffer line) lines

pub to_bool : List ℕ → Bool
to_bool str = same (to_lower (strip str)) (codes "true")

module _ (d : Numbers) where
  open d use {doubles, Double, zero_double, strtod}

  -- `std::unordered_map<int, std::unordered_map<int, double> >`.
  abbrev pub Table : Type 0
  Table = List (ℤ × List (ℤ × Double))

  pub record Param : Type 0 where
    pub pv_use_delta : Bool
    pub uv_use_delta : Bool
    pub avg_ctr_use_pos : Bool
    pub avg_bid_use_pos : Bool
    pub win_rate_use_pos : Bool
    pub win_rate_use_delta : Bool
    pub uv_pv_min_rate : Double
    pub uv_pv_max_rate : Double
    pub max_win_rate : Double
    pub pv_step_function : StepFunction doubles
    pub uv_step_function : StepFunction doubles
    pub win_rate_step_function : StepFunction doubles
    pub platform_min_bids : Table
    pub win_rate_scales : Table
    pub win_rate_thresholds : Table

  abbrev pub clear : Param → Param
  clear p = record {
    pv_use_delta = false;
    uv_use_delta = false;
    avg_ctr_use_pos = false;
    avg_bid_use_pos = false;
    win_rate_use_pos = false;
    win_rate_use_delta = false;
    uv_pv_min_rate = zero_double;
    uv_pv_max_rate = zero_double;
    max_win_rate = zero_double;
    pv_step_function = StepFunction.clear doubles p.pv_step_function;
    uv_step_function = StepFunction.clear doubles p.uv_step_function;
    win_rate_step_function = StepFunction.clear doubles p.win_rate_step_function;
    platform_min_bids = [];
    win_rate_scales = [];
    win_rate_thresholds = [];
  }

  -- The lookup that `GetMinBids`, `GetWinRateScale` and `GetWinRateThreshold` have in common.
  abbrev pub get_inner : Option (List (ℤ × Double)) → ℤ → Double
  get_inner none adpos_type = zero_double
  get_inner (some inner) adpos_type = value_or zero_double (find_int inner adpos_type)

  abbrev pub get_entry : Table → ℤ → ℤ → Double
  get_entry table platform adpos_type = get_inner (find_int table platform) adpos_type

  abbrev pub get_min_bids : Param → ℤ → ℤ → Double
  get_min_bids p = get_entry p.platform_min_bids

  abbrev pub get_win_rate_scale : Param → ℤ → ℤ → Double
  get_win_rate_scale p = get_entry p.win_rate_scales

  abbrev pub get_win_rate_threshold : Param → ℤ → ℤ → Double
  get_win_rate_threshold p = get_entry p.win_rate_thresholds

  abbrev pub get_pv_delta : Param → Double → Option Double
  get_pv_delta p x = get_value doubles x p.pv_step_function

  abbrev pub get_uv_delta : Param → Double → Option Double
  get_uv_delta p x = get_value doubles x p.uv_step_function

  abbrev pub get_win_rate_delta : Param → Double → Option Double
  get_win_rate_delta p x = get_value doubles x p.win_rate_step_function

  -- `map[first_key][second_key] = value`.
  abbrev pub inner_of : Option (List (ℤ × Double)) → List (ℤ × Double)
  inner_of none = []
  inner_of (some inner) = inner

  pub put_entry : Table → ℤ → ℤ → Double → Table
  put_entry table first second value =
      put_int table first (put_int (inner_of (find_int table first)) second value)

  -- The body of the loop of `Deserialize` for tables.
  pub deserialize_item : Table → List (List ℕ) → Table
  deserialize_item table item =
      if ltb (length item) 3
      then table
      else put_entry table (int_of (strtol (strip (get_or item 0 []))))
          (int_of (strtol (strip (get_or item 1 [])))) (strtod (strip (get_or item 2 [])))

  pub deserialize_items : Table → List (List (List ℕ)) → Table
  deserialize_items table [] = table
  deserialize_items table (item ∷ items) = deserialize_items (deserialize_item table item) items

  pub deserialize_table : List ℕ → Table
  deserialize_table str = deserialize_items [] (split_both str b'|' b',')

  -- The loops of `Deserialize` for step functions: the numbers, and those at even and odd places.
  pub read_numbers : List (List ℕ) → List Double
  read_numbers [] = []
  read_numbers (item ∷ items) =
      let num = strip item in
      let rest = read_numbers items in if is_empty num then rest else strtod num ∷ rest

  pub values_from : ℕ → List Double → List Double
  values_from i [] = []
  values_from i (x ∷ array) =
      let rest = values_from (i + 1) array in if i % 2 == 1 then rest else x ∷ rest

  pub splits_from : ℕ → List Double → List Double
  splits_from i [] = []
  splits_from i (x ∷ array) =
      let rest = splits_from (i + 1) array in if i % 2 == 1 then x ∷ rest else rest

  pub deserialize_step : List ℕ → StepFunction doubles → ℤ × StepFunction doubles
  deserialize_step str f =
      let array = read_numbers (split str b'|') in
      let splits = splits_from 0 array in
      let values = values_from 0 array in
      let cleared = StepFunction.clear doubles f in
      if length values == length splits + 1
      then (pos 0, set_splits doubles splits (set_values doubles values cleared))
      else (negsuc 0, cleared)

  -- One setting of `Load`: where the file has it, the member takes what its text reads as.
  abbrev pub set_found {ℓ} : {A : Type ℓ} → (List ℕ → A) → Option (List ℕ) → A → A
  set_found read none old = old
  set_found read (some text) old = read text

  abbrev pub load_bools : Map (List ℕ) → Param → Param
  load_bools buffer p = record p {
    pv_use_delta = set_found to_bool (find buffer (codes "pv_use_delta")) p.pv_use_delta;
    uv_use_delta = set_found to_bool (find buffer (codes "uv_use_delta")) p.uv_use_delta;
    avg_ctr_use_pos = set_found to_bool (find buffer (codes "avg_ctr_use_pos")) p.avg_ctr_use_pos;
    avg_bid_use_pos = set_found to_bool (find buffer (codes "avg_bid_use_pos")) p.avg_bid_use_pos;
    win_rate_use_pos =
        set_found to_bool (find buffer (codes "win_rate_use_pos")) p.win_rate_use_pos;
    win_rate_use_delta =
        set_found to_bool (find buffer (codes "win_rate_use_delta")) p.win_rate_use_delta;
  }

  abbrev pub load_doubles : Map (List ℕ) → Param → Param
  load_doubles buffer p = record p {
    uv_pv_min_rate = set_found strtod (find buffer (codes "uv_pv_min_rate")) p.uv_pv_min_rate;
    uv_pv_max_rate = set_found strtod (find buffer (codes "uv_pv_max_rate")) p.uv_pv_max_rate;
    max_win_rate = set_found strtod (find buffer (codes "max_win_rate")) p.max_win_rate;
  }

  abbrev pub load_tables : Map (List ℕ) → Param → Param
  load_tables buffer p = record p {
    platform_min_bids =
        set_found deserialize_table (find buffer (codes "platform_min_bids")) p.platform_min_bids;
    win_rate_scales =
        set_found deserialize_table (find buffer (codes "win_rate_scales")) p.win_rate_scales;
    win_rate_thresholds =
        set_found deserialize_table (find buffer (codes "win_rate_thresholds"))
          p.win_rate_thresholds;
  }

  -- One step function of `Load`: a negative code is returned, else `rest` goes on.
  abbrev pub store_step :
      (Param → StepFunction doubles → Param)
      → Param
      → (Param → ℤ × Param)
      → ℤ × StepFunction doubles
      → ℤ × Param
  store_step put p rest (pos n, f) = rest (put p f)
  store_step put p rest (negsuc n, f) = (negsuc n, put p f)

  abbrev pub load_step :
      Option (List ℕ)
      → (Param → StepFunction doubles)
      → (Param → StepFunction doubles → Param)
      → (Param → ℤ × Param)
      → Param
      → ℤ × Param
  load_step none get put rest p = rest p
  load_step (some text) get put rest p = store_step put p rest (deserialize_step text (get p))

  abbrev pub load_steps : Map (List ℕ) → Param → ℤ × Param
  load_steps buffer =
      load_step (find buffer (codes "pv_step_function")) (λ p. p.pv_step_function)
        (λ p f. record p { pv_step_function = f })
        (load_step (find buffer (codes "uv_step_function")) (λ p. p.uv_step_function)
          (λ p f. record p { uv_step_function = f })
          (load_step (find buffer (codes "win_rate_step_function")) (λ p. p.win_rate_step_function)
            (λ p f. record p { win_rate_step_function = f }) (λ p. (pos 0, p))))

  -- `Load`: `none` is a file that does not open, `some lines` what `getline` reads.
  unfoldable pub load : Option (List (List ℕ)) → Param → ℤ × Param
  load none p = (negsuc 0, clear p)
  load (some lines) p =
      let buffer = load_lines [] lines in
      load_steps buffer (load_tables buffer (load_doubles buffer (load_bools buffer (clear p))))
