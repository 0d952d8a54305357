-- ===== src/PvBidBitmap/Rates.antt =====
-- `GetRate` and `GetHourlyCtr` of src/pv_bid_bitmap.cc.
use high_dimensional_flow_re.Base.{
  ℕ, ◌+◌, Option, some, List, [], ◌∷◌, ltb, if◌then◌else◌, ◌>>=◌, u32, get_elem?,
}
use high_dimensional_flow_re.Numbers.{Numbers, ratio}
use high_dimensional_flow_re.PvBidBitmap.{PvBidBitmap, hours_per_day}

module _ (d : Numbers) where
  open d use {Double, zero_double, of_nat, float_product, add}

  abbrev pub get_rate : PvBidBitmap → Double
  get_rate b = ratio d (of_nat b.pv) (of_nat b.request)

  -- The loop over the hours; a read outside the arrays is a fault.
  abbrev add_hour : Double → ℕ → Option ℕ → Option ℕ → Option (ℕ × Double)
  add_hour clicks views pv ctr =
      pv >>= λ n. ctr >>= λ f. some (u32 (views + n), add clicks (float_product n f))

  unfoldable pub sum_hours : PvBidBitmap → List ℕ → ℕ → Double → Option (ℕ × Double)
  sum_hours b [] views clicks = some (views, clicks)
  sum_hours b (hour ∷ hours) views clicks =
      if ltb hour hours_per_day
      then (add_hour clicks views (get_elem? b.hourly_pv hour) (get_elem? b.hourly_ctr hour)
          >>= λ (views', clicks'). sum_hours b hours views' clicks')
      else sum_hours b hours views clicks

  unfoldable pub get_hourly_ctr : PvBidBitmap → List ℕ → Option Double
  get_hourly_ctr b hours =
      sum_hours b hours 0 zero_double >>= λ (views, clicks). some (ratio d clicks (of_nat views))
