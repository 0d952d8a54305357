-- ===== src/RequestHandler/Sums.antt =====
-- The sums of src/request_handler.cc: `Accumulate` for either bitmap, and `Calculate`.
use high_dimensional_flow_re.Base.{ℕ, ◌+◌, ◌-◌, ◌^◌, Bool, Option, some, if◌then◌else◌, ◌>>=◌, u32}
use high_dimensional_flow_re.BidBitmap.{Result}
use high_dimensional_flow_re.PvBidBitmap.{PvBidBitmap}
use high_dimensional_flow_re.UvBidBitmap.{UvBidBitmap}
use high_dimensional_flow_re.PvBidBitmap.Rates as PvRates
use high_dimensional_flow_re.UvBidBitmap.Rates as UvRates
use high_dimensional_flow_re.QueryParser.{QueryData}
use high_dimensional_flow_re.Numbers.{Numbers, ratio}
use high_dimensional_flow_re.Param.{
  Param, get_pv_delta, get_uv_delta, get_win_rate_delta, get_min_bids, get_win_rate_scale,
  get_win_rate_threshold,
}

abbrev pub duration : ℕ
duration = 7

-- `a - b` on `uint32_t`.
abbrev pub sub32 : ℕ → ℕ → ℕ
sub32 a b = u32 (a + (2 ^ 32 - u32 b))

module _ (d : Numbers) where
  open d use {Double, lt, zero_double, literal, of_nat, of_int, add, sub, mul, div, pow, ceil}

  -- The members of a handler that are numbers of type `double`.
  pub record Sums : Type 0 where
    pub uv_sum : Double
    pub pv_sum : Double
    pub uv_merge_rate : Double
    pub avg_ctr_weights_sum : Double
    pub avg_ctr_weighted_sum : Double
    pub avg_bid_weights_sum : Double
    pub avg_bid_weighted_sum : Double
    pub win_rate_weights_sum : Double
    pub win_rate_weighted_sum : Double
    pub uv : Double
    pub pv : Double
    pub avg_ctr : Double
    pub avg_bid : Double
    pub win_rate : Double

  abbrev pub zero_sums : Sums
  zero_sums = record {
    uv_sum = zero_double;
    pv_sum = zero_double;
    uv_merge_rate = zero_double;
    avg_ctr_weights_sum = zero_double;
    avg_ctr_weighted_sum = zero_double;
    avg_bid_weights_sum = zero_double;
    avg_bid_weighted_sum = zero_double;
    win_rate_weights_sum = zero_double;
    win_rate_weighted_sum = zero_double;
    uv = zero_double;
    pv = zero_double;
    avg_ctr = zero_double;
    avg_bid = zero_double;
    win_rate = zero_double;
  }

  abbrev one : Double
  one = literal 1 0

  -- The share of the samples that the query wins: `result.win_num * 1.0 / bitmap.GetSize()`.
  abbrev pub win_share : Result → ℕ → Double
  win_share result size = div (mul (of_nat result.win_num) one) (of_nat size)

  -- The weight of an ad position: its requests or its page views.
  abbrev pub weight_of : Bool → PvBidBitmap → Double
  weight_of use_pos b = if use_pos then of_nat b.request else of_nat b.pv

  abbrev add_pv : Sums → Double → Sums
  add_pv s share = record s { pv_sum = add s.pv_sum share }

  abbrev add_ctr : Sums → Double → Double → Sums
  add_ctr s ctr weight = record s {
    avg_ctr_weighted_sum = add s.avg_ctr_weighted_sum (mul ctr weight);
    avg_ctr_weights_sum = add s.avg_ctr_weights_sum (mul weight one);
  }

  abbrev add_bid : Sums → Double → Double → Sums
  add_bid s bid weight = record s {
    avg_bid_weighted_sum = add s.avg_bid_weighted_sum (mul bid weight);
    avg_bid_weights_sum = add s.avg_bid_weights_sum (mul weight one);
  }

  abbrev add_win_rate : Sums → Double → Double → Sums
  add_win_rate s rate weight = record s {
    win_rate_weighted_sum = add s.win_rate_weighted_sum (mul rate weight);
    win_rate_weights_sum = add s.win_rate_weights_sum weight;
  }

  -- `avg_bid`, which the least bid of the platform and the type bounds from below.
  abbrev pub bid_of : Param d → QueryData → Result → Double
  bid_of param qd result =
      let min_bid = get_min_bids d param qd.platform qd.advert_type in
      let avg_bid = ratio d (of_nat result.bid_sum) (of_nat result.bid_num) in
      if lt min_bid avg_bid then avg_bid else min_bid

  abbrev pub win_rate_with_zero : Result → Double
  win_rate_with_zero result = ratio d (of_nat result.win_num) (of_nat result.target_num)

  abbrev pub win_rate_without_zero : Result → Double
  win_rate_without_zero result =
      ratio d (of_nat (sub32 result.win_num result.zero_num))
        (of_nat (sub32 result.target_num result.zero_num))

  abbrev pub mix : Double → Result → Double
  mix delta result =
      add (mul (win_rate_with_zero result) delta)
        (mul (win_rate_without_zero result) (sub one delta))

  -- The parts of `Accumulate` for page views that call a step function.
  unfoldable pub pv_share : Param d → PvBidBitmap → Result → Option Double
  pv_share param b result =
      let share = win_share result b.base.size in
      if param.pv_use_delta
      then (get_pv_delta d param (PvRates.get_rate d b) >>= λ delta.
          some (mul (mul share delta) (of_nat b.request)))
      else some (mul share (of_nat b.pv))

  unfoldable pub win_rate_of : Param d → PvBidBitmap → Result → Option Double
  win_rate_of param b result =
      if param.win_rate_use_delta
      then (get_win_rate_delta d param (PvRates.get_rate d b) >>= λ delta. some (mix delta result))
      else some (win_rate_with_zero result)

  -- `Accumulate` for page views, with the numbers that its parts give.
  abbrev pub add_parts :
      Param d → QueryData → PvBidBitmap → Result → Double → Sums → Double → Double → Sums
  add_parts param qd b result ctr s share rate =
      let s₁ = add_pv s share in
      let s₂ = add_ctr s₁ ctr (weight_of param.avg_ctr_use_pos b) in
      let s₃ = add_bid s₂ (bid_of param qd result) (weight_of param.avg_bid_use_pos b) in
      add_win_rate s₃ rate (weight_of param.win_rate_use_pos b)

  unfoldable pub accumulate_pv :
      PvBidBitmap → Result → Param d → QueryData → Double → Sums → Option Sums
  accumulate_pv b result param qd ctr s = do
    share ← pv_share param b result
    rate ← win_rate_of param b result
    some (add_parts param qd b result ctr s share rate)

  -- `Accumulate` for visitors. The second branch adds to `pv_sum_`.
  unfoldable pub accumulate_uv : UvBidBitmap → Result → Param d → Sums → Option Sums
  accumulate_uv b result param s =
      let share = win_share result b.base.size in
      if param.uv_use_delta
      then (get_uv_delta d param (UvRates.get_rate d b) >>= λ delta.
          some (record s { uv_sum = add s.uv_sum (mul (mul share delta) (of_nat b.request)) }))
      else some (record s { pv_sum = add s.pv_sum (mul share (of_nat b.uv)) })

  -- `a > b ? c : a`, and `a < b ? c : a`.
  abbrev pub if_above : Double → Double → Double → Double
  if_above a b c = if lt b a then c else a

  abbrev pub if_below : Double → Double → Double → Double
  if_below a b c = if lt a b then c else a

  -- The parts of `Calculate`: the daily numbers, the averages, and the win rate.
  abbrev pub daily_pv : Sums → Double
  daily_pv s = ceil (div s.pv_sum (of_nat duration))

  abbrev pub daily_uv : Param d → Sums → Double
  daily_uv param s =
      let pv = daily_pv s in
      let high = mul pv param.uv_pv_max_rate in
      let low = mul pv param.uv_pv_min_rate in
      let uv = ceil (div (mul s.uv_sum s.uv_merge_rate) (of_nat duration)) in
      if_below (if_above uv high (ceil high)) low (ceil low)

  abbrev pub averages : Sums → Sums
  averages s = record s {
    avg_ctr = ratio d s.avg_ctr_weighted_sum s.avg_ctr_weights_sum;
    avg_bid = ratio d s.avg_bid_weighted_sum s.avg_bid_weights_sum;
    win_rate = ratio d s.win_rate_weighted_sum s.win_rate_weights_sum;
  }

  -- The correction by the price.
  abbrev pub price_factor : Param d → QueryData → Double
  price_factor param qd =
      let rate =
        pow (div (of_int qd.price) (get_win_rate_threshold d param qd.platform qd.advert_type))
          (get_win_rate_scale d param qd.platform qd.advert_type) in
      if lt rate one then rate else one

  abbrev pub correct : Param d → QueryData → Double → Double
  correct param qd win_rate =
      if param.win_rate_use_delta then win_rate else mul win_rate (price_factor param qd)

  unfoldable pub calculate : Param d → QueryData → Sums → Sums
  calculate param qd s =
      let daily = record s { pv = daily_pv s; uv = daily_uv param s } in
      let averaged = if lt (literal 99 2) daily.pv then averages daily else daily in
      let win_rate = correct param qd averaged.win_rate in
      record averaged { win_rate = if_above win_rate param.max_win_rate param.max_win_rate }
