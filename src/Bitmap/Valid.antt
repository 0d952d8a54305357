-- ===== src/Bitmap/Valid.antt =====
-- What `Generate` of common/bitmap.hpp establishes, and the other operations rely on.
use native.Mathlib.Nat.{mod-eq_of_lt}
use high_dimensional_flow_re.Base.{
  ℕ, ◌+◌, ◌*◌, ◌%◌, ◌^◌, ◌≤◌, ◌<◌, ◌≡◌, arith, some, u32, length, get_elem?, get_elem?-eq-get_or,
  All, All-get_or,
}
use high_dimensional_flow_re.Base.Bytes.{IsByte}
use high_dimensional_flow_re.Bitmap.{Bitmap}
use high_dimensional_flow_re.Bitmap.Mask.{row_bytes, row_bit}

-- Rows are whole words that hold the columns, the array holds the rows, no offset passes 32 bits,
-- and the bits behind the last column are clear.
pub record IsValid (b : Bitmap) : Type 0 where
  pub whole_words : b.width % 8 ≡ 0
  pub holds : b.size ≤ 8 * b.width
  pub offsets : b.width * b.height < 2 ^ 32
  pub filled : length b.cells ≡ b.width * b.height
  pub bytes : All IsByte b.cells
  pub spare : (r c : ℕ) → r < b.height → b.size ≤ c → c < 8 * b.width → row_bit b r c ≡ 0

module _ {b : Bitmap} (v : IsValid b) where
  -- A byte of a row lies in the array, and its offset does not wrap.
  pub row_in_cells : (r i : ℕ) → r < b.height → i < b.width → r * b.width + i < length b.cells
  row_in_cells r i hr hi = rw v.filled (grind arith)

  pub row_offset : (r i : ℕ) → r < b.height → i < b.width → u32 (r * b.width + i) ≡ r * b.width + i
  row_offset r i hr hi = mod-eq_of_lt (omega (arith, row_in_cells r i hr hi, v.filled, v.offsets))

  -- The read of a byte of a row.
  pub read_row :
      (r i : ℕ)
      → r < b.height
      → i < b.width
      → (get_elem? b.cells (u32 (r * b.width + i)) ≡ some (row_bytes b r i))
        × (row_bytes b r i < 256)
  read_row r i hr hi = (
    rw (row_offset r i hr hi)
        (get_elem?-eq-get_or b.cells (r * b.width + i) 0 (row_in_cells r i hr hi)),
    All-get_or IsByte b.cells (r * b.width + i) 0 v.bytes (omega arith),
  )
