-- ===== src/BidBitmap.antt =====
-- include/bid_bitmap.hpp: a bitmap with a bid for each sample, and the statistics of the samples
-- that a mask selects. `none` is an access outside an array.
pub mod Count
pub mod Tally
pub mod Faults
pub mod Generate
pub mod Files
pub mod Storable
use high_dimensional_flow_re.Base.{
  ℕ, zero, suc, ◌+◌, ◌-◌, ◌*◌, ◌%◌, ◌^◌, Bool, true, false, Option, none, some, List, [], ltb, leb,
  ◌==◌, if◌then◌else◌, ◌>>=◌, u32, u64, length, get_elem?,
}
use high_dimensional_flow_re.Bitmap.{Bitmap, pop_each, pop_rounds, int_rounds}
use high_dimensional_flow_re.Bitmap

-- The constructor of the source leaves `bid_num` unset; `count` writes every field.
pub record Result : Type 0 where
  pub bid_sum : ℕ
  pub target_num : ℕ
  pub win_num : ℕ
  pub zero_num : ℕ
  pub bid_num : ℕ

pub record BidBitmap : Type 0 where
  pub bitmap : Bitmap
  pub open bitmap use *
  pub bids : List ℕ

abbrev pub clear : BidBitmap → BidBitmap
clear b = record { bitmap = Bitmap.clear b.bitmap; bids = [] }

-- `procs` is what `omp_get_num_procs` returns.
pub new_bid_bitmap : ℕ → ℕ → BidBitmap
new_bid_bitmap procs threads = record { bitmap = Bitmap.new_bitmap procs threads; bids = [] }

unfoldable pub generate : List (List ℕ) → List ℕ → ℕ → BidBitmap → Option (Bool × BidBitmap)
generate cols bids height b = do
  let b' = clear b
  (done, bitmap) ← Bitmap.generate cols height b'.bitmap
  let filled = record b' { bitmap = bitmap }
  let same_size = length bids == bitmap.size
  if done
      then (if same_size then some (true, record filled { bids = bids }) else some (false, filled))
      else some (false, filled)

abbrev zero_result : Result
zero_result = record { bid_sum = 0; target_num = 0; win_num = 0; zero_num = 0; bid_num = 0 }

-- The body of the inner loop of `Count`: `bid` is the caller's, `_bid` the sample's.
pub add_bid : ℕ → ℕ → Result → Result
add_bid bid _bid r =
    let counted = record r { target_num = u32 (r.target_num + 1) } in
    let priced =
      if ltb 0 _bid
      then record counted { bid_sum = u64 (r.bid_sum + _bid); bid_num = u32 (r.bid_num + 1) }
      else record counted { zero_num = u32 (r.zero_num + 1) } in
    if leb _bid bid then record priced { win_num = u32 (r.win_num + 1) } else priced

module _ (mask bids : List ℕ) (bid : ℕ) where
  pub count_loop : ℕ → ℕ → Result → Option Result
  count_loop zero i r = some r
  count_loop (suc n) i r = do
    s ← get_elem? mask i
    r' ←
        pop_each (λ j t. get_elem? bids (8 * i + 7 - j) >>= λ _bid. some (add_bid bid _bid t))
          pop_rounds s r
    count_loop n (i + 1) r'

pub count : BidBitmap → List ℕ → ℕ → Option Result
count b mask bid = count_loop mask b.bids bid (int_rounds b.width) 0 zero_result
