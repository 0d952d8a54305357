-- ===== src/Param/Settings.antt =====
-- `Load` of src/param.cc: what the settings leave in the members.
use high_dimensional_flow_re.Base.{◌≡◌, Bool, false, ◌&&◌, Option, List, [], ℕ, if◌then◌else◌}
use high_dimensional_flow_re.Base.Ints.{ℤ, pos, negsuc}
use high_dimensional_flow_re.Base.Text.{codes}
use high_dimensional_flow_re.StepFunction.{StepFunction}
use high_dimensional_flow_re.Numbers.{Numbers}
use high_dimensional_flow_re.Param.Given.{first_given}
use high_dimensional_flow_re.Param.Steps.{no_step, is_good, step_given}
use high_dimensional_flow_re.Param.{Table, to_bool, Param, deserialize_table, set_found}

module _ (d : Numbers) where
  open d use {doubles, Double, zero_double, strtod}

  -- What the three step functions are read from, and the code: a text that is none stops the load.
  abbrev steps_left : Param d → Option (List ℕ) → Option (List ℕ) → Option (List ℕ) → ℤ × Param d
  steps_left p pv uv win = (
    if is_good d pv && is_good d uv && is_good d win then pos 0 else negsuc 0,
    record p {
      pv_step_function = step_given d pv;
      uv_step_function = if is_good d pv then step_given d uv else no_step d;
      win_rate_step_function = if is_good d pv && is_good d uv then step_given d win else no_step d;
    },
  )

  abbrev pub flag : List (List ℕ) → List ℕ → Bool
  flag lines setting = set_found d to_bool (first_given setting lines) false

  abbrev pub number : List (List ℕ) → List ℕ → Double
  number lines setting = set_found d strtod (first_given setting lines) zero_double

  abbrev pub table : List (List ℕ) → List ℕ → Table d
  table lines setting = set_found d (deserialize_table d) (first_given setting lines) []

  -- The step function of a setting, and whether its text, if there is one, is that of one.
  abbrev pub step : List (List ℕ) → List ℕ → StepFunction doubles
  step lines setting = step_given d (first_given setting lines)

  abbrev pub good_step : List (List ℕ) → List ℕ → Bool
  good_step lines setting = is_good d (first_given setting lines)

  -- The code and the members after a `Load` of the lines, each from its setting.
  pub record IsLoaded (lines : List (List ℕ)) (result : ℤ × Param d) : Type 0 where
    pub pv_use_delta : result.1.pv_use_delta ≡ flag lines (codes "pv_use_delta")
    pub uv_use_delta : result.1.uv_use_delta ≡ flag lines (codes "uv_use_delta")
    pub avg_ctr_use_pos : result.1.avg_ctr_use_pos ≡ flag lines (codes "avg_ctr_use_pos")
    pub avg_bid_use_pos : result.1.avg_bid_use_pos ≡ flag lines (codes "avg_bid_use_pos")
    pub win_rate_use_pos : result.1.win_rate_use_pos ≡ flag lines (codes "win_rate_use_pos")
    pub win_rate_use_delta : result.1.win_rate_use_delta ≡ flag lines (codes "win_rate_use_delta")
    pub uv_pv_min_rate : result.1.uv_pv_min_rate ≡ number lines (codes "uv_pv_min_rate")
    pub uv_pv_max_rate : result.1.uv_pv_max_rate ≡ number lines (codes "uv_pv_max_rate")
    pub max_win_rate : result.1.max_win_rate ≡ number lines (codes "max_win_rate")
    pub platform_min_bids : result.1.platform_min_bids ≡ table lines (codes "platform_min_bids")
    pub win_rate_scales : result.1.win_rate_scales ≡ table lines (codes "win_rate_scales")
    pub win_rate_thresholds :
        result.1.win_rate_thresholds ≡ table lines (codes "win_rate_thresholds")
    pub pv_step : result.1.pv_step_function ≡ step lines (codes "pv_step_function")
    pub uv_step : result.1.uv_step_function ≡ (
        if good_step lines (codes "pv_step_function")
        then step lines (codes "uv_step_function")
        else no_step d)
    pub win_rate_step : result.1.win_rate_step_function ≡ (
        if good_step lines (codes "pv_step_function") && good_step lines (codes "uv_step_function")
        then step lines (codes "win_rate_step_function")
        else no_step d)
    pub code : result.0 ≡ (
        if good_step lines (codes "pv_step_function")
          && good_step lines (codes "uv_step_function")
          && good_step lines (codes "win_rate_step_function")
        then pos 0
        else negsuc 0)
