-- ===== src/RequestHandler/Clamps.antt =====
-- The limits that `Calculate` of src/request_handler.cc keeps.
use high_dimensional_flow_re.Base.{◌≡◌, false, Bool-cases, inl, inr}
use high_dimensional_flow_re.StepFunction.Search.{IsOrder}
use high_dimensional_flow_re.Numbers.{Numbers}
use high_dimensional_flow_re.QueryParser.{QueryData}
use high_dimensional_flow_re.Param.{Param}
use high_dimensional_flow_re.RequestHandler.Sums.{Sums, if_above, if_below, daily_pv, calculate}

module _ (d : Numbers) (order : IsOrder d.doubles) where
  open d use {Double, lt, literal, mul, ceil}

  irreflexive : (a : Double) → lt a a ≡ false
  irreflexive a = elim (Bool-cases (lt a a)) [ inl e ↦ order.asym a a e | inr e ↦ e ]

  if_above-max : (a m : Double) → lt m (if_above d a m m) ≡ false
  if_above-max a m = elim (Bool-cases (lt m a)) [
    | inl above ↦ rw above (irreflexive m)
    | inr kept ↦ rw kept kept
  ]

  if_below-low : (a low c : Double) → lt c low ≡ false → lt (if_below d a low c) low ≡ false
  if_below-low a low c h = elim (Bool-cases (lt a low)) [
    | inl below ↦ rw below h
    | inr kept ↦ rw kept kept
  ]

  -- After `Calculate`, the win rate is not above its greatest value, and the visitors are not below
  -- the least rate of the page views. The order of the numbers is a strict weak order, and rounding
  -- up gives no smaller number.
  pub calculate-within :
      ((x : Double) → lt (ceil x) x ≡ false)
      → (param : Param d) (qd : QueryData) (s : Sums d)
      → let after = calculate d param qd s in
        (lt param.max_win_rate after.win_rate ≡ false)
        × (lt after.uv (mul after.pv param.uv_pv_min_rate) ≡ false)
  unfolding calculate
  calculate-within rounds param qd s = elim (Bool-cases (lt (literal 99 2) (daily_pv d s))) [
    | inl shown ↦ rw shown (
      if_above-max _ param.max_win_rate,
      if_below-low _ (mul (daily_pv d s) param.uv_pv_min_rate) _ (rounds _),
    )
    | inr hidden ↦ rw hidden (
      if_above-max _ param.max_win_rate,
      if_below-low _ (mul (daily_pv d s) param.uv_pv_min_rate) _ (rounds _),
    )
  ]
