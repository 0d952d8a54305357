-- ===== src/UvBidBitmap/Rates.antt =====
-- `GetRate` of src/uv_bid_bitmap.cc.
use high_dimensional_flow_re.Numbers.{Numbers, ratio}
use high_dimensional_flow_re.UvBidBitmap.{UvBidBitmap}

module _ (d : Numbers) where
  open d use {Double, of_nat}

  abbrev pub get_rate : UvBidBitmap → Double
  get_rate b = ratio d (of_nat b.uv) (of_nat b.request)
