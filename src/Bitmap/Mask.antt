-- ===== src/Bitmap/Mask.antt =====
-- The columns of a byte array: which bit of which byte speaks of a column. This is the layout
-- of `GetBit` and `SetBit` of common/bitmap.hpp.
use high_dimensional_flow_re.Base.{ℕ, ◌+◌, ◌-◌, ◌*◌, ◌/◌, ◌%◌, ◌<◌, ◌≡◌, List, arith, get_or}
use high_dimensional_flow_re.Base.Bits.{bit, bit-lt-two}
use high_dimensional_flow_re.Base.Sums.{sum_over}
use high_dimensional_flow_re.Bitmap.{Bitmap}

-- 1 if column `c` is set in the bytes, and 0 if not.
abbrev pub column : (ℕ → ℕ) → ℕ → ℕ
column bytes c = bit (7 - c % 8) (bytes (c / 8))

-- The bytes of a mask, and those of a row of a bitmap.
abbrev pub mask_bytes : List ℕ → ℕ → ℕ
mask_bytes mask i = get_or mask i 0

abbrev pub row_bytes : Bitmap → ℕ → ℕ → ℕ
row_bytes b row i = get_or b.cells (row * b.width + i) 0

abbrev pub mask_bit : List ℕ → ℕ → ℕ
mask_bit mask = column (mask_bytes mask)

abbrev pub row_bit : Bitmap → ℕ → ℕ → ℕ
row_bit b row = column (row_bytes b row)

pub column-lt-two : (bytes : ℕ → ℕ) (c : ℕ) → column bytes c < 2
column-lt-two bytes c = bit-lt-two (7 - c % 8) (bytes (c / 8))

pub column-at :
    (bytes : ℕ → ℕ) (c i k : ℕ) → c ≡ 8 * i + k → k < 8 → column bytes c ≡ bit (7 - k) (bytes i)
column-at bytes c i k e h =
    let hi : c / 8 ≡ i = omega arith in let lo : c % 8 ≡ k = omega arith in rw (hi, lo)

-- A sum over the eight columns of a byte, by the indices of the byte's bits.
pub sum_over-byte :
    (bytes : ℕ → ℕ) (g : ℕ → ℕ) (i : ℕ)
    → sum_over (λ c. column bytes c * g c) (8 * i) 8
      ≡ sum_over (λ j. bit j (bytes i) * g (8 * i + 7 - j)) 0 8
unfolding sum_over
sum_over-byte bytes g i = ground (
  arith,
  column-at bytes (8 * i) i 0,
  column-at bytes (8 * i + 1) i 1,
  column-at bytes (8 * i + 1 + 1) i 2,
  column-at bytes (8 * i + 1 + 1 + 1) i 3,
  column-at bytes (8 * i + 1 + 1 + 1 + 1) i 4,
  column-at bytes (8 * i + 1 + 1 + 1 + 1 + 1) i 5,
  column-at bytes (8 * i + 1 + 1 + 1 + 1 + 1 + 1) i 6,
  column-at bytes (8 * i + 1 + 1 + 1 + 1 + 1 + 1 + 1) i 7,
)
