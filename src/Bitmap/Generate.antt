-- ===== src/Bitmap/Generate.antt =====
-- `Generate` of common/bitmap.hpp: the bits that are set are those of the columns' rows.
use native.Mathlib.Nat.{mod-eq_of_lt}
use high_dimensional_flow_re.Base.{
  ℕ, ◌+◌, ◌-◌, ◌*◌, ◌/◌, ◌%◌, ◌^◌, ◌<◌, ◌≡◌, refl, ◌∙◌, Bool, true, false, ◌&&◌, ◌||◌, Option, some,
  List, [], arith, leb, if◌then◌else◌, length, get_or, All-replicate, replicate, length-replicate,
  get_or-replicate, get_or-default, elem, all_lists_below,
}
use high_dimensional_flow_re.Base.Bits.{bit-zero}
use high_dimensional_flow_re.Base.Bytes.{IsByte}
use high_dimensional_flow_re.Bitmap.{Bitmap, Header, fill_columns, generate, row_width}
use high_dimensional_flow_re.Bitmap.Mask.{row_bit}
use high_dimensional_flow_re.Bitmap.Valid.{IsValid}
use high_dimensional_flow_re.Bitmap.Cells.{with_cells, CellsHold, FillsTo, fill_columns-FillsTo}

-- The header that `Generate` gives.
abbrev pub header_for : ℕ → ℕ → Header
header_for size height = record { width = row_width size; size = size; height = height }

-- What `Generate` promises: it returns, with the header of the columns and the height, and says
-- whether every row is below the height; if so the bitmap is valid and has the bits of the
-- columns, and no other.
pub record IsGenerated (cols : List (List ℕ)) (height : ℕ) (result : Option (Bool × Bitmap))
    : Type 0 where
  pub bitmap : Bitmap
  pub returns : result ≡ some (all_lists_below height cols, bitmap)
  pub head : bitmap.header ≡ header_for (length cols) height
  pub valid : all_lists_below height cols ≡ true → IsValid bitmap
  pub bits :
      (r c : ℕ)
      → all_lists_below height cols ≡ true
      → r < height
      → c < length cols
      → row_bit bitmap r c ≡ (if elem r (get_or cols c []) then 1 else 0)

-- The cells after `memset`.
zeros-CellsHold :
    (b : Bitmap) (n : ℕ) → b.width * b.height ≡ n → CellsHold b (λ r c. false) (replicate n 0)
zeros-CellsHold b n e = record {
  filled = rw (length-replicate, e);
  bytes = All-replicate IsByte n 0 (omega arith);
  bits =
      λ r c hr hc. rw (get_or-replicate {A = ℕ} n (r * b.width + c / 8) 0) (bit-zero (7 - c % 8));
}

module _ (cols : List (List ℕ)) (height : ℕ) (b : Bitmap) (few : length cols < 2 ^ 32)
    (small : row_width (length cols) * height < 2 ^ 32) where
  abbrev headed : Bitmap
  headed = record { threads = b.threads; header = header_for (length cols) height; cells = [] }

  generate-eq-fill :
      generate cols height b
      ≡ fill_columns 0 cols (with_cells headed (replicate (row_width (length cols) * height) 0))
  unfolding generate
  generate-eq-fill = rw (mod-eq_of_lt few, mod-eq_of_lt small)

  filled_columns :
      FillsTo headed small
        (all_lists_below height cols)
        (λ r c. (leb 0 c && elem r (get_or cols (c - 0) [])) || false)
        (generate cols height b)
  filled_columns = rw generate-eq-fill (
      fill_columns-FillsTo headed small 0 cols (λ r c. false)
        (replicate (row_width (length cols) * height) 0)
        (zeros-CellsHold headed (row_width (length cols) * height) refl) (ground arith))

  generated_bit :
      (r c : ℕ)
      → all_lists_below height cols ≡ true
      → r < height
      → c < 8 * row_width (length cols)
      → row_bit (with_cells headed filled_columns.cells) r c
        ≡ (if elem r (get_or cols c []) then 1 else 0)
  generated_bit r c ok hr hc =
      let e : c - 0 ≡ c = omega arith in
      (filled_columns.holds ok).bits r c hr hc ∙ rw e (ground arith)

  -- `Generate` runs without a fault, returns true exactly where every row number is below the
  -- height, and then leaves a valid bitmap in which the bits set are those that the columns list.
  -- The columns are fewer than 2 ^ 32 and the array's size does not wrap.
  pub generate-IsGenerated : IsGenerated cols height (generate cols height b)
  generate-IsGenerated = record {
    bitmap = with_cells headed filled_columns.cells;
    returns = filled_columns.returns;
    head = refl;
    valid = λ ok. record {
      whole_words = omega arith;
      holds = ground arith;
      offsets = small;
      filled = (filled_columns.holds ok).filled;
      bytes = (filled_columns.holds ok).bytes;
      spare = λ r c hr low hc. generated_bit r c ok hr hc ∙ rw (get_or-default cols c [] low);
    };
    bits = λ r c ok hr hc. generated_bit r c ok hr (ground arith);
  }

-- When `Generate` returns true, the bitmap that it leaves is valid. The columns are fewer than
-- 2 ^ 32 and the array's size does not wrap.
pub generate-IsValid :
    (cols : List (List ℕ)) (height : ℕ) (b b' : Bitmap)
    → length cols < 2 ^ 32
    → row_width (length cols) * height < 2 ^ 32
    → generate cols height b ≡ some (true, b')
    → IsValid b'
generate-IsValid cols height b b' few small e =
    let g = generate-IsGenerated cols height b few small in
    let same : g.bitmap ≡ b' = ground (arith, g.returns) in
    rw (← same) (g.valid (ground (arith, g.returns)))
