-- ===== src/BidBitmap/Storable.antt =====
-- `Generate` of include/bid_bitmap.hpp and the files.
use high_dimensional_flow_re.Base.{
  ℕ, ◌*◌, ◌^◌, ◌≤◌, ◌<◌, ◌≡◌, true, ◌&&◌, some, List, arith, ◌==◌, length, All, all_lists_below,
}
use high_dimensional_flow_re.Bitmap.{row_width}
use high_dimensional_flow_re.Bitmap.Files.{IsHeader}
use high_dimensional_flow_re.Bitmap.Generate.{header_for}
use high_dimensional_flow_re.BidBitmap.{BidBitmap, generate}
use high_dimensional_flow_re.BidBitmap.Generate.{generate-IsGeneratedBids}
use high_dimensional_flow_re.BidBitmap.Files.{IsStorable}

-- The input that an ad position needs: samples and targets, and a bid of 16 bits for each sample,
-- so few that no size wraps.
pub record IsInput (cols : List (List ℕ)) (bids : List ℕ) (height : ℕ) : Type 0 where
  pub some_sample : 0 < length cols
  pub some_target : 0 < height
  pub few : length cols < 2 ^ 32
  pub small : row_width (length cols) * height < 2 ^ 32
  pub short : All (λ p. p < 2 ^ 16) bids

positive-mul : (m n : ℕ) → 0 < m → 0 < n → 0 < m * n
positive-mul m n hm hn = grind arith

le-mul : (m n : ℕ) → 0 < n → m ≤ m * n
le-mul m n h = grind arith

le-mul_left : (m n : ℕ) → 0 < m → n ≤ m * n
le-mul_left m n h = grind arith

header_for-IsHeader :
    {cols : List (List ℕ)} {bids : List ℕ} {height : ℕ}
    → IsInput cols bids height
    → (0 < row_width (length cols)) × IsHeader (header_for (length cols) height)
header_for-IsHeader {cols} {height} i =
    let wide : 0 < row_width (length cols) = ground (arith, i.some_sample) in
    (
      wide,
      record {
        width_fits = omega (arith, le-mul (row_width (length cols)) height i.some_target, i.small);
        size_fits = i.few;
        height_fits = omega (arith, le-mul_left (row_width (length cols)) height wide, i.small);
      },
    )

-- When `Generate` returns true on such input, what it leaves can be stored.
pub generate-IsStorable :
    (cols : List (List ℕ)) (bids : List ℕ) (height : ℕ) (b b' : BidBitmap)
    → IsInput cols bids height
    → generate cols bids height b ≡ some (true, b')
    → IsStorable b'
generate-IsStorable cols bids height b b' i e =
    let g = generate-IsGeneratedBids cols bids height b i.few i.small in
    let same : g.made ≡ b' = ground (arith, g.returns) in
    let ok : (all_lists_below height cols && length bids == length cols) ≡ true =
      ground (arith, g.returns) in
    let (wide, head) = header_for-IsHeader i in
    let valid = g.valid (ground arith) in
    rw (← same) (record {
      valid = valid;
      header_fits = rw g.head head;
      some_cells =
          rw (valid.filled, g.head)
            (positive-mul (row_width (length cols)) height wide i.some_target);
      one_each = rw (g.stored ok, g.head) (ground arith);
      short = rw (g.stored ok) i.short;
    })
