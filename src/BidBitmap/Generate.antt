-- ===== src/BidBitmap/Generate.antt =====
-- `Generate` of include/bid_bitmap.hpp.
use high_dimensional_flow_re.Base.{
  ℕ, ◌*◌, ◌^◌, ◌<◌, ◌≡◌, ap, Bool, true, false, ◌&&◌, Option, some, List, [], arith, ◌==◌,
  if◌then◌else◌, length, get_or, elem, all_lists_below,
}
use high_dimensional_flow_re.Bitmap.{Header, row_width}
use high_dimensional_flow_re.Bitmap.Mask.{row_bit}
use high_dimensional_flow_re.Bitmap.Valid.{IsValid}
use high_dimensional_flow_re.Bitmap.Generate.{header_for, generate-IsGenerated}
use high_dimensional_flow_re.BidBitmap.{BidBitmap, generate, clear}

-- What `Generate` promises: it returns true exactly where every row is below the height and there
-- is a bid for each sample; then the bits are those of the columns, and the bids are the ones given.
pub record IsGeneratedBids (cols : List (List ℕ)) (bids : List ℕ) (height : ℕ)
    (result : Option (Bool × BidBitmap)) : Type 0 where
  pub made : BidBitmap
  pub returns : result ≡ some (all_lists_below height cols && length bids == length cols, made)
  pub head : made.header ≡ header_for (length cols) height
  pub valid : all_lists_below height cols ≡ true → IsValid made.bitmap
  pub bits :
      (r c : ℕ)
      → all_lists_below height cols ≡ true
      → r < height
      → c < length cols
      → row_bit made.bitmap r c ≡ (if elem r (get_or cols c []) then 1 else 0)
  pub stored : (all_lists_below height cols && length bids == length cols) ≡ true → made.bids ≡ bids
  pub empty : (all_lists_below height cols && length bids == length cols) ≡ false → made.bids ≡ []

abbrev made_bids : List (List ℕ) → List ℕ → ℕ → List ℕ
made_bids cols bids height =
    if all_lists_below height cols && length bids == length cols then bids else []

-- `Generate` runs without a fault, and returns true exactly where every row number is below the
-- height and there are as many bids as columns; then the bits set are those that the columns list,
-- and the bids are the ones given, and otherwise no bids are left. The columns are fewer than
-- 2 ^ 32 and the array's size does not wrap.
pub generate-IsGeneratedBids :
    (cols : List (List ℕ)) (bids : List ℕ) (height : ℕ) (b : BidBitmap)
    → length cols < 2 ^ 32
    → row_width (length cols) * height < 2 ^ 32
    → IsGeneratedBids cols bids height (generate cols bids height b)
unfolding generate
generate-IsGeneratedBids cols bids height b few small =
    let g = generate-IsGenerated cols height (clear b).bitmap few small in
    let size : g.bitmap.size ≡ length cols = ap (λ (h : Header). h.size) g.head in
    record {
      made = record { bitmap = g.bitmap; bids = made_bids cols bids height };
      returns = rw g.returns (ground (arith, size));
      head = g.head;
      valid = g.valid;
      bits = g.bits;
      stored = λ e. rw e;
      empty = λ e. rw e;
    }
