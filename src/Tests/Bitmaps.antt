-- ===== src/Tests/Bitmaps.antt =====
-- The bitmap theorems at a small bitmap: two targets, three samples.
use high_dimensional_flow_re.Base.{
  ℕ, ◌*◌, ◌≡◌, refl, inl, true, bit_and, bit_or, some, List, [], ◌∷◌, arith, replicate,
}
use high_dimensional_flow_re.Base.Bits.{or_op}
use high_dimensional_flow_re.Base.Sums.{sum_over}
use high_dimensional_flow_re.Bitmap.{
  Bitmap, default_bitmap, fill_columns, fill_column, set_bit, generate, row, at, word_loop, bound,
  rounds_from, and_words,
}
use high_dimensional_flow_re.Bitmap.Mask.{mask_bit}
use high_dimensional_flow_re.Bitmap.Valid.{IsValid}
use high_dimensional_flow_re.Bitmap.Generate.{IsGenerated, generate-IsGenerated, generate-IsValid}
use high_dimensional_flow_re.Bitmap.AndOr.{
  IsSchedule, IsRowResult, word_loop_any_order, and_words-IsRowResult,
}

abbrev pub three_samples : List (List ℕ)
three_samples = (0 ∷ []) ∷ (0 ∷ 1 ∷ []) ∷ (1 ∷ []) ∷ []

abbrev pub two_rows : Bitmap
two_rows = record {
  threads = 1;
  header = record { width = 8; size = 3; height = 2 };
  cells = 0xc0 ∷ 0 ∷ 0 ∷ 0 ∷ 0 ∷ 0 ∷ 0 ∷ 0 ∷ 0x60 ∷ 0 ∷ 0 ∷ 0 ∷ 0 ∷ 0 ∷ 0 ∷ 0 ∷ [];
}

pub two_rows_generated : generate three_samples 2 default_bitmap ≡ some (true, two_rows)
unfolding generate default_bitmap replicate fill_columns fill_column set_bit
two_rows_generated = refl

pub two_rows-IsValid : IsValid two_rows
two_rows-IsValid =
    generate-IsValid three_samples 2 default_bitmap two_rows (omega arith) (omega arith)
      two_rows_generated

generate-IsGenerated_example : IsGenerated three_samples 2 (generate three_samples 2 default_bitmap)
generate-IsGenerated_example =
    generate-IsGenerated three_samples 2 default_bitmap (omega arith) (omega arith)

-- The samples 0 and 2.
abbrev pub two_selected : List ℕ
two_selected = 0xa0 ∷ 0 ∷ 0 ∷ 0 ∷ 0 ∷ 0 ∷ 0 ∷ 0 ∷ []

count_two : sum_over (mask_bit two_selected) 0 (8 * 8) ≡ 2
unfolding sum_over
count_two = refl

abbrev row_buffer : List ℕ
row_buffer = 1 ∷ 2 ∷ 3 ∷ 4 ∷ 5 ∷ 6 ∷ 7 ∷ 8 ∷ []

one_round : IsSchedule (bound two_rows) (0 ∷ [])
one_round = record { distinct = (refl, tt); below = refl; complete = λ i h. ground arith }

word_loop_any_order_example :
    word_loop bit_or two_rows (row 0) (at 0) 0 (0 ∷ []) row_buffer
    ≡ word_loop bit_or two_rows (row 0) (at 0) 0 (rounds_from 0 (bound two_rows)) row_buffer
word_loop_any_order_example =
    word_loop_any_order or_op two_rows-IsValid (row 0) (at 0) 0 tt (inl refl) row_buffer
      (omega arith) (omega arith) (omega arith) (omega arith) (0 ∷ []) one_round

and_words-IsRowResult_example :
    IsRowResult bit_and two_rows
      (row 0)
      (row 1)
      0
      row_buffer
      (and_words two_rows (row 0) (row 1) 0 row_buffer)
and_words-IsRowResult_example =
    and_words-IsRowResult two_rows-IsValid (row 0) (row 1) 0 tt tt row_buffer (omega arith)
      (omega arith) (omega arith) (omega arith)
