-- ===== src/Bitmap.antt =====
-- common/bitmap.hpp: the bitmap of targets (rows) by samples (columns). A column is a bit, the
-- first column of a byte in the byte's highest bit; a row is a whole number of 64-bit words.
-- `none` is an access outside an array or a signed overflow, which C leaves undefined.
pub mod Pop
pub mod Mask
pub mod Valid
pub mod Cells
pub mod Generate
pub mod Count
pub mod Words
pub mod AndOr
pub mod Files
use high_dimensional_flow_re.Base.{
  ℕ, zero, suc, ◌+◌, ◌-◌, ◌*◌, ◌/◌, ◌%◌, ◌^◌, bit_and, bit_or, bit_xor, Bool, true, false, Option,
  none, some, List, [], ◌∷◌, ltb, leb, ◌==◌, if◌then◌else◌, ◌>>=◌, u32, length, get_elem?, set,
  replicate,
}
use high_dimensional_flow_re.Base.Bits.{bit}
use high_dimensional_flow_re.Base.Bytes.{load_word, store_word}

-- Width in bytes, size in bits.
pub record Header : Type 0 where
  pub width : ℕ
  pub size : ℕ
  pub height : ℕ

-- `cells` is the array at `data_`; a null pointer is the empty array.
pub record Bitmap : Type 0 where
  pub threads : ℕ
  pub header : Header
  pub open header use *
  pub cells : List ℕ

abbrev pub clear : Bitmap → Bitmap
clear b = record b { header = record { width = 0; size = 0; height = 0 }; cells = [] }

-- `procs` is what `omp_get_num_procs` returns.
pub set_threads : ℕ → ℕ → Bitmap → Bitmap
set_threads procs threads b =
    let max_threads = procs / 4 in
    let capped = if ltb max_threads threads then max_threads else threads in
    record b { threads = if ltb capped 1 then 1 else capped }

-- `Bitmap()` and `Bitmap(threads)`.
unfoldable pub default_bitmap : Bitmap
default_bitmap = record {
  threads = 1;
  header = record { width = 0; size = 0; height = 0 };
  cells = [];
}

unfoldable pub new_bitmap : ℕ → ℕ → Bitmap
unfolding set_threads default_bitmap
new_bitmap procs threads = set_threads procs threads default_bitmap

-- The bytes of a row of `size` bits: whole 64-bit words. `size & 63` is `size % 64`.
abbrev pub row_width : ℕ → ℕ
row_width size = (size / 2 ^ 6 + (if ltb 0 (size % 64) then 1 else 0)) * 2 ^ 3

abbrev pub cell_index : Bitmap → ℕ → ℕ → ℕ
cell_index b row col = u32 (row * b.width + col / 2 ^ 3)

pub get_bit : Bitmap → ℕ → ℕ → Option ℕ
get_bit b row col = get_elem? b.cells (cell_index b row col) >>= λ x. some (bit (7 - col % 8) x)

unfoldable pub set_bit : Bitmap → ℕ → ℕ → Option Bitmap
set_bit b row col = do
  x ← get_elem? b.cells (cell_index b row col)
  some (record b { cells = set b.cells (cell_index b row col) (bit_or x (2 ^ (7 - col % 8))) })

-- The two loops of `Generate`: the rows that column `col` sets, then the columns from `col` on.
-- The result is what `Generate` returns, and the bitmap that it leaves.
unfoldable pub fill_column : ℕ → List ℕ → Bitmap → Option (Bool × Bitmap)
fill_column col [] b = some (true, b)
fill_column col (row ∷ rows) b =
    if leb b.height row then some (false, b) else set_bit b row col >>= fill_column col rows

unfoldable pub fill_columns : ℕ → List (List ℕ) → Bitmap → Option (Bool × Bitmap)
fill_columns col [] b = some (true, b)
fill_columns col (rows ∷ cols) b = do
  (done, b') ← fill_column col rows b
  if done then fill_columns (col + 1) cols b' else some (false, b')

-- `Generate` before its loops: the header, and the array filled with zeros.
pub allocate : List (List ℕ) → ℕ → Bitmap → Bitmap
allocate cols height b =
    let size = u32 (length cols) in
    let width = row_width size in
    record b {
      header = record { width = width; size = size; height = height };
      cells = replicate (u32 (width * height)) 0;
    }

unfoldable pub generate : List (List ℕ) → ℕ → Bitmap → Option (Bool × Bitmap)
unfolding allocate
generate cols height b = fill_columns 0 cols (allocate cols height (clear b))

-- What `And` and `Or` read: a row of the bitmap, or a pointer into the caller's buffer, given
-- by its offset there.
pub data Operand : Type 0 where
  row : ℕ → Operand
  at : ℕ → Operand

load64 : List ℕ → ℕ → Option ℕ
load64 buf off = if leb (off + 8) (length buf) then some (load_word 8 buf off) else none

store64 : List ℕ → ℕ → ℕ → Option (List ℕ)
store64 buf off w = if leb (off + 8) (length buf) then some (store_word 8 buf off w) else none

fetch : Bitmap → List ℕ → ℕ → Operand → Option ℕ
fetch b buf i (row r) = load64 b.cells (u32 (r * b.width) + 8 * i)
fetch b buf i (at p) = load64 buf (p + 8 * i)

-- The rounds that the loop of `And` and `Or` makes, in the order of the list; the result is
-- written at `p`, which may be an operand too.
pub word_loop : (ℕ → ℕ → ℕ) → Bitmap → Operand → Operand → ℕ → List ℕ → List ℕ → Option (List ℕ)
word_loop op b x y p [] buf = some buf
word_loop op b x y p (i ∷ rounds) buf = do
  first ← fetch b buf i x
  second ← fetch b buf i y
  buf' ← store64 buf (p + 8 * i) (op first second)
  word_loop op b x y p rounds buf'

abbrev pub bound : Bitmap → ℕ
bound b = b.width / 2 ^ 3 + (if ltb 0 (b.width % 8) then 1 else 0)

-- `i, i + 1, …`, `n` numbers.
pub rounds_from : ℕ → ℕ → List ℕ
rounds_from i zero = []
rounds_from i (suc n) = i ∷ rounds_from (i + 1) n

-- The three overloads of `And`, and of `Or`, differ in their operands only.
pub and_words : Bitmap → Operand → Operand → ℕ → List ℕ → Option (List ℕ)
and_words b x y p buf = word_loop bit_and b x y p (rounds_from 0 (bound b)) buf

pub or_words : Bitmap → Operand → Operand → ℕ → List ℕ → Option (List ℕ)
or_words b x y p buf = word_loop bit_or b x y p (rounds_from 0 (bound b)) buf

-- `__builtin_ctz` of a byte that is not 0.
abbrev ctz : ℕ → ℕ → ℕ
ctz zero x = 0
ctz (suc n) x = if x % 2 == 0 then suc (ctz n (x / 2)) else 0

-- The lowest bit of a byte, by its index, and the byte without it; `none` is the -1.
pub pop : ℕ → Option (ℕ × ℕ)
pop x =
    if x == 0 then none else let del = bit_and x (bit_xor x (x - 1)) in some (ctz 8 del, x - del)

-- `for (int j = Pop(s); j >= 0; j = Pop(s)) body(j)`. A byte has eight bits, so the rounds are nine.
abbrev pub pop_rounds : ℕ
pop_rounds = 9

module _ {ℓ} {S : Type ℓ} (body : ℕ → S → Option S) where
  pub pop_each : ℕ → ℕ → S → Option S
  pop_each zero x s = none
  pop_each (suc fuel) x s = elim (pop x) [
    | none ↦ some s
    | some (j, x') ↦ body j s >>= pop_each fuel x'
  ]

-- `++sum` on an `int`.
abbrev pub inc_int : ℕ → Option ℕ
inc_int sum = if ltb sum (2 ^ 31 - 1) then some (sum + 1) else none

-- The loop bound `static_cast<int>(width)`: a width of 2 ^ 31 or more is negative.
abbrev pub int_rounds : ℕ → ℕ
int_rounds width = if ltb width (2 ^ 31) then width else 0

pub count_loop : (ℕ → Option ℕ) → ℕ → ℕ → ℕ → Option ℕ
count_loop read zero i sum = some sum
count_loop read (suc n) i sum = do
  s ← read i
  sum' ← pop_each (λ j t. inc_int t) pop_rounds s sum
  count_loop read n (i + 1) sum'

-- `Count(mask)` and `Count(index)`.
pub count : Bitmap → List ℕ → Option ℕ
count b mask = count_loop (get_elem? mask) (int_rounds b.width) 0 0

pub count_row : Bitmap → ℕ → Option ℕ
count_row b index =
    if ltb index b.height
    then count_loop (λ i. get_elem? b.cells (u32 (index * b.width + i))) (int_rounds b.width) 0 0
    else some 0
