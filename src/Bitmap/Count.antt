-- ===== src/Bitmap/Count.antt =====
-- `Count` of common/bitmap.hpp: the loop over the bytes adds up the bits of the columns.
use high_dimensional_flow_re.Base.{
  ℕ, zero, suc, ◌+◌, ◌*◌, ◌^◌, ◌≤◌, ◌<◌, ◌≡◌, ap, sym, ◌∙◌, Option, some, List, [], ◌∷◌, arith, ltb,
  lt→ltb, ltb→lt, Bool-cases, inl, inr, if◌then◌else◌, u32, length, get_elem?, get_elem?-eq-get_or,
  All, All-get_or,
}
use high_dimensional_flow_re.Base.Bytes.{IsByte}
use high_dimensional_flow_re.Base.Sums.{sum_over, sum_of, sum_over-add, sum_over-le, sum_over_ext}
use high_dimensional_flow_re.Bitmap.{
  Bitmap, pop_each, pop_rounds, inc_int, count_loop, count, count_row,
}
use high_dimensional_flow_re.Bitmap.Valid.{IsValid, read_row}
use high_dimensional_flow_re.Bitmap.Pop.{fold_opt, set_bits, pop_each_lem, set_bits-sum}
use high_dimensional_flow_re.Bitmap.Mask.{
  column, mask_bytes, row_bytes, mask_bit, row_bit, column-lt-two, sum_over-byte,
}

-- The loop over a byte adds the number of its bits, as long as the `int` holds the sum.
fold-inc_int :
    (js : List ℕ) (sum : ℕ)
    → sum + sum_of (λ j. 1) js < 2 ^ 31
    → fold_opt (λ j t. inc_int t) js sum ≡ some (sum + sum_of (λ j. 1) js)
unfolding sum_of
fold-inc_int [] sum h = ground arith
fold-inc_int (j ∷ js) sum h = ground (arith, fold-inc_int js (sum + 1))

columns-le : (bytes : ℕ → ℕ) (lo n : ℕ) → sum_over (column bytes) lo n ≤ n
columns-le bytes lo n =
    omega (arith, sum_over-le (column bytes) lo n 1 (λ c. omega (arith, column-lt-two bytes c)))

count_byte :
    (bytes : ℕ → ℕ) (i sum : ℕ)
    → bytes i < 256
    → sum + 8 < 2 ^ 31
    → pop_each (λ j t. inc_int t) pop_rounds (bytes i) sum
      ≡ some (sum + sum_over (column bytes) (8 * i) 8)
count_byte bytes i sum byte fits =
    let total : sum_of (λ j. 1) (set_bits (bytes i)) ≡ sum_over (column bytes) (8 * i) 8 =
      set_bits-sum (λ j. 1) (bytes i)
      ∙ sym (sum_over-byte bytes (λ c. 1) i)
      ∙ sum_over_ext (λ c. column bytes c * 1) (column bytes) (8 * i) 8 (λ c p q. omega arith) in
    pop_each_lem (λ j t. inc_int t) (bytes i) sum byte
    ∙ fold-inc_int (set_bits (bytes i)) sum (omega (arith, total, columns-le bytes (8 * i) 8))
    ∙ rw total

pub count_loop_lem :
    (read : ℕ → Option ℕ) (bytes : ℕ → ℕ) (n i sum : ℕ)
    → ((k : ℕ) → i ≤ k → k < i + n → (read k ≡ some (bytes k)) × (bytes k < 256))
    → sum + 8 * n < 2 ^ 31
    → count_loop read n i sum ≡ some (sum + sum_over (column bytes) (8 * i) (8 * n))
unfolding count_loop
count_loop_lem read bytes zero i sum reads fits = unfold sum_over in ap some (omega arith)
count_loop_lem read bytes (suc n) i sum reads fits =
    let first = sum_over (column bytes) (8 * i) 8 in
    let (value, byte) = reads i (omega arith) (omega arith) in
    let rest =
      count_loop_lem read bytes n (i + 1) (sum + first)
        (λ k p q. reads k (omega arith) (omega arith))
        (omega (arith, columns-le bytes (8 * i) 8)) in
    let eight : 8 * suc n ≡ 8 + 8 * n = omega arith in
    let split = sum_over-add (column bytes) (8 * i) 8 (8 * n) (8 * (i + 1)) (omega arith) in
    rw (value, count_byte bytes i sum byte (omega arith), eight)
      (rest ∙ ap some (omega (arith, split)))

-- `Count(mask)` is the number of columns that the mask selects, in all its bytes. The bitmap's
-- bits fit an `int`, and the mask is as long as a row.
pub count-mask_bit :
    (b : Bitmap) (mask : List ℕ)
    → 8 * b.width < 2 ^ 31
    → b.width ≤ length mask
    → All IsByte mask
    → count b mask ≡ some (sum_over (mask_bit mask) 0 (8 * b.width))
unfolding count
count-mask_bit b mask fits long bytes = rw (lt→ltb b.width (2 ^ 31) (omega arith)) (
    count_loop_lem (get_elem? mask) (mask_bytes mask) b.width 0 0
      (λ k p q. (
        get_elem?-eq-get_or mask k 0 (omega arith),
        All-get_or IsByte mask k 0 bytes (omega arith),
      ))
      (omega arith)
    ∙ ap some (omega arith))

-- `Count(index)` is the number of bits set in a row, and 0 for a row that the bitmap lacks. The
-- bitmap is valid and its columns fit an `int`.
pub count_row_lem :
    {b : Bitmap} (index : ℕ)
    → IsValid b
    → 8 * b.width < 2 ^ 31
    → count_row b index
      ≡ some (if ltb index b.height then sum_over (row_bit b index) 0 (8 * b.width) else 0)
unfolding count_row
count_row_lem {b} index v fits = elim (Bool-cases (ltb index b.height)) [
  | inr beyond ↦ rw beyond
  | inl inside ↦
      let below : index < b.height = ltb→lt index b.height inside in
      rw (inside, lt→ltb b.width (2 ^ 31) (omega arith))
        (count_loop_lem (λ i. get_elem? b.cells (u32 (index * b.width + i))) (row_bytes b index)
            b.width 0 0 (λ k p q. read_row v index k below (omega arith)) (omega arith)
          ∙ ap some (omega arith))
]
