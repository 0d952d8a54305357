-- ===== src/BidBitmap/Tally.antt =====
-- What `Count` of include/bid_bitmap.hpp reports of the samples that a mask selects.
use high_dimensional_flow_re.Base.{
  ℕ, ◌+◌, ◌-◌, ◌*◌, ◌^◌, ◌≤◌, ◌<◌, ◌≡◌, refl, ◌∙◌, Option, some, List, arith, ltb, leb, ◌==◌,
  lt→ltb, if◌then◌else◌, length, get_or, All, All-get_or,
}
use high_dimensional_flow_re.Base.Bytes.{IsByte}
use high_dimensional_flow_re.Base.Sums.{sum_over, sum_over-add, sum_over-le, sum_over-zero}
use high_dimensional_flow_re.Bitmap.Mask.{mask_bytes, mask_bit, column-lt-two}
use high_dimensional_flow_re.BidBitmap.{Result, BidBitmap, zero_result, add_bid, count}
use high_dimensional_flow_re.BidBitmap.Count.{adds_loop, stat-adds_loop, count_loop-eq-adds}

-- A mask for a bitmap: a byte for each byte of a row, and nothing selected behind the samples.
pub record IsMask (b : BidBitmap) (mask : List ℕ) : Type 0 where
  pub long : b.width ≤ length mask
  pub bytes : All IsByte mask
  pub spare : (c : ℕ) → b.size ≤ c → c < 8 * b.width → mask_bit mask c ≡ 0

-- The sum of a weight of the bids over the samples that a mask selects.
abbrev pub selected_sum : (ℕ → ℕ) → BidBitmap → List ℕ → ℕ
selected_sum weight b mask = sum_over (λ c. mask_bit mask c * weight (get_or b.bids c 0)) 0 b.size

-- The statistics of the samples that a mask selects, for a bid.
pub record IsTally (b : BidBitmap) (mask : List ℕ) (bid : ℕ) (result : Option Result) : Type 0 where
  pub tally : Result
  pub returns : result ≡ some tally
  pub targets : tally.target_num ≡ selected_sum (λ p. 1) b mask
  pub bid_total : tally.bid_sum ≡ selected_sum (λ p. p) b mask
  pub wins : tally.win_num ≡ selected_sum (λ p. if leb p bid then 1 else 0) b mask
  pub zeros : tally.zero_num ≡ selected_sum (λ p. if p == 0 then 1 else 0) b mask
  pub priced : tally.bid_num ≡ selected_sum (λ p. if ltb 0 p then 1 else 0) b mask

-- A bitmap whose samples have each a bid of 16 bits, of fewer than 2 ^ 31 columns.
pub record IsPriced (b : BidBitmap) : Type 0 where
  pub room : 8 * b.width < 2 ^ 31
  pub holds : b.size ≤ 8 * b.width
  pub one_each : length b.bids ≡ b.size
  pub short : All (λ p. p < 2 ^ 16) b.bids

product-le : (x y m : ℕ) → x < 2 → y ≤ m → x * y ≤ m
product-le x y m hx hy = grind arith

module _ {b : BidBitmap} {mask : List ℕ} (bid : ℕ) (v : IsPriced b) (m : IsMask b mask) where
  abbrev final : Result
  final = adds_loop mask b.bids bid b.width 0 zero_result

  -- The columns behind the samples add nothing.
  selected-all :
      (weight : ℕ → ℕ)
      → sum_over (λ c. mask_bit mask c * weight (get_or b.bids c 0)) 0 (8 * b.width)
        ≡ selected_sum weight b mask
  selected-all weight =
      let f = λ (c : ℕ). mask_bit mask c * weight (get_or b.bids c 0) in
      let tail =
        sum_over-zero f b.size (8 * b.width - b.size)
          (λ c p q. rw (m.spare c p (omega (arith, v.holds))) (omega arith)) in
      let whole : b.size + (8 * b.width - b.size) ≡ 8 * b.width = omega (arith, v.holds) in
      let split = sum_over-add f 0 b.size (8 * b.width - b.size) b.size (omega arith) in
      (rw whole at split) ∙ omega (arith, tail)

  stat_total :
      (stat : Result → ℕ) (weight : ℕ → ℕ) (limit heaviest : ℕ)
      → ((p : ℕ) (r : Result)
          → stat r + weight p < limit
          → stat (add_bid bid p r) ≡ stat r + weight p)
      → ((c : ℕ) → weight (get_or b.bids c 0) ≤ heaviest)
      → stat zero_result ≡ 0
      → 8 * b.width * heaviest < limit
      → stat final ≡ selected_sum weight b mask
  stat_total stat weight limit heaviest law heavy start fits =
      let f = λ (c : ℕ). mask_bit mask c * weight (get_or b.bids c 0) in
      let below : sum_over f 0 (8 * b.width) ≤ 8 * b.width * heaviest =
        sum_over-le f 0 (8 * b.width) heaviest (λ c.
          product-le (mask_bit mask c) (weight (get_or b.bids c 0)) heaviest
            (column-lt-two (mask_bytes mask) c) (heavy c)) in
      let looped =
        stat-adds_loop mask b.bids bid stat weight limit law b.width 0 zero_result
          (omega (arith, start, below)) in
      looped ∙ omega (arith, start, selected-all weight)

  -- A statistic that counts samples.
  counted :
      (stat : Result → ℕ) (weight : ℕ → ℕ)
      → ((p : ℕ) (r : Result)
          → stat r + weight p < 2 ^ 32
          → stat (add_bid bid p r) ≡ stat r + weight p)
      → ((c : ℕ) → weight (get_or b.bids c 0) ≤ 1)
      → stat zero_result ≡ 0
      → stat final ≡ selected_sum weight b mask
  counted stat weight law light start =
      stat_total stat weight (2 ^ 32) 1 law light start (omega (arith, v.room))

  low_bid : (c : ℕ) → get_or b.bids c 0 ≤ 65535
  low_bid c = omega (arith, All-get_or (λ p. p < 2 ^ 16) b.bids c 0 v.short (omega arith))

  returned : count b mask bid ≡ some final
  unfolding count
  returned = rw (lt→ltb b.width (2 ^ 31) (omega (arith, v.room))) (
      count_loop-eq-adds mask b.bids bid b.width 0 zero_result
        (λ k p q. (omega (arith, m.long), All-get_or IsByte mask k 0 m.bytes (omega arith)))
        (λ c p q e. ground (arith, v.one_each, m.spare c)))

  -- `Count` returns, and its five numbers are the sums over the selected samples: none wraps. There
  -- is one bid of 16 bits for each sample, the columns are fewer than 2 ^ 31, and the mask is as
  -- long as a row and selects nothing behind the samples.
  pub count-IsTally : IsTally b mask bid (count b mask bid)
  count-IsTally = record {
    tally = final;
    returns = returned;
    targets =
        counted (λ r. r.target_num) (λ p. 1) (λ p r h. unfold add_bid in ground arith)
          (λ c. omega arith) refl;
    bid_total =
        stat_total (λ r. r.bid_sum) (λ p. p) (2 ^ 64) 65535
          (λ p r h. unfold add_bid in ground arith) low_bid refl (omega (arith, v.room));
    wins =
        counted (λ r. r.win_num) (λ p. if leb p bid then 1 else 0)
          (λ p r h. unfold add_bid in ground arith) (λ c. ground arith) refl;
    zeros =
        counted (λ r. r.zero_num) (λ p. if p == 0 then 1 else 0)
          (λ p r h. unfold add_bid in ground arith) (λ c. ground arith) refl;
    priced =
        counted (λ r. r.bid_num) (λ p. if ltb 0 p then 1 else 0)
          (λ p r h. unfold add_bid in ground arith) (λ c. ground arith) refl;
  }
