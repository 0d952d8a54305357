-- ===== src/Bitmap/AndOr.antt =====
-- `And` and `Or` of common/bitmap.hpp as whole calls, and the orders of their rounds.
use high_dimensional_flow_re.Base.{
  ℕ, zero, suc, ◌+◌, ◌-◌, ◌*◌, ◌/◌, ◌%◌, ◌≤◌, ◌<◌, bit_and, bit_or, ◌≡◌, ◌⊎◌, inl, inr, refl, ap,
  sym, ◌∙◌, true, ◌&&◌, Option, some, List, arith, ltb, leb, length, get_or, get_or_ext, All, elem,
  all_below, Bool-cases,
}
use high_dimensional_flow_re.Base.Bits.{WordOp, and_op, or_op, bit-op}
use high_dimensional_flow_re.Base.Bytes.{IsByte}
use high_dimensional_flow_re.Bitmap.{
  Bitmap, Operand, word_loop, bound, rounds_from, and_words, or_words,
}
use high_dimensional_flow_re.Bitmap.Mask.{column}
use high_dimensional_flow_re.Bitmap.Valid.{IsValid}
use high_dimensional_flow_re.Bitmap.Words.{source, Readable, Apart, Distinct, word_loop-IsCombined}

elem-rounds_from : (j i n : ℕ) → elem j (rounds_from i n) ≡ (leb i j && ltb j (i + n))
unfolding rounds_from
elem-rounds_from j i zero = ground arith
elem-rounds_from j i (suc n) = ground (arith, elem-rounds_from j (i + 1) n)

rounds_from-Distinct : (i n : ℕ) → Distinct (rounds_from i n)
unfolding rounds_from
rounds_from-Distinct i zero = tt
rounds_from-Distinct i (suc n) =
    (ground (arith, elem-rounds_from i (i + 1) n), rounds_from-Distinct (i + 1) n)

rounds_from-below : (i n m : ℕ) → i + n ≤ m → all_below m (rounds_from i n) ≡ true
unfolding rounds_from
rounds_from-below i zero m h = refl
rounds_from-below i (suc n) m h = ground (arith, rounds_from-below (i + 1) n m)

-- A call has returned with every byte of the row combined, and no other byte changed.
pub record IsRowResult (op : ℕ → ℕ → ℕ) (b : Bitmap) (x y : Operand) (p : ℕ) (buf : List ℕ)
    (result : Option (List ℕ)) : Type 0 where
  pub out : List ℕ
  pub returns : result ≡ some out
  pub same_length : length out ≡ length buf
  pub bytes : All IsByte out
  pub row_byte :
      (k : ℕ) → k < b.width → get_or out (p + k) 0 ≡ op (source b buf x k) (source b buf y k)
  pub outside : (j : ℕ) → (j < p) ⊎ (p + b.width ≤ j) → get_or out j 0 ≡ get_or buf j 0

-- The result is determined.
IsRowResult-unique :
    {op : ℕ → ℕ → ℕ} {b : Bitmap} {x y : Operand} {p : ℕ} {buf : List ℕ} {m n : Option (List ℕ)}
    (one : IsRowResult op b x y p buf m) (two : IsRowResult op b x y p buf n) (j : ℕ)
    → get_or one.out j 0 ≡ get_or two.out j 0
IsRowResult-unique {b} {p} one two j = elim (Bool-cases (leb p j && ltb j (p + b.width))) [
  | inl within ↦
      let place : p + (j - p) ≡ j = ground arith in
      rw (← place) (one.row_byte (j - p) (ground arith) ∙ sym (two.row_byte (j - p) (ground arith)))
  | inr beyond ↦ one.outside j (ground arith) ∙ sym (two.outside j (ground arith))
]

-- The columns of a row result are those of the operands, combined digit by digit.
pub result_column :
    (w : WordOp) {b : Bitmap} {x y : Operand} {p : ℕ} {buf : List ℕ} {m : Option (List ℕ)}
    (r : IsRowResult w.op b x y p buf m) (c : ℕ)
    → c < 8 * b.width
    → column (λ k. get_or r.out (p + k) 0) c
      ≡ w.digit (column (source b buf x) c) (column (source b buf y) c)
result_column w {b} {x} {y} {buf} r c h =
    rw (r.row_byte (c / 8) (omega arith))
      (bit-op w (7 - c % 8) (source b buf x (c / 8)) (source b buf y (c / 8)))

-- The order of a parallel loop: each round once.
pub record IsSchedule (n : ℕ) (order : List ℕ) : Type 0 where
  pub distinct : Distinct order
  pub below : all_below n order ≡ true
  pub complete : (i : ℕ) → i < n → elem i order ≡ true

pub rounds_from-IsSchedule : (n : ℕ) → IsSchedule n (rounds_from 0 n)
rounds_from-IsSchedule n = record {
  distinct = rounds_from-Distinct 0 n;
  below = rounds_from-below 0 n n (omega arith);
  complete = λ i h. ground (arith, elem-rounds_from i 0 n);
}

module _ (w : WordOp) {b : Bitmap} (v : IsValid b) (x y : Operand) (p : ℕ) (apart_x : Apart b p x)
    (apart_y : Apart b p y) (buf : List ℕ) (read_x : Readable b buf x) (read_y : Readable b buf y)
    (room : p + b.width ≤ length buf) (bytes : All IsByte buf) where
  scheduled-IsRowResult :
      (order : List ℕ)
      → IsSchedule (bound b) order
      → IsRowResult w.op b x y p buf (word_loop w.op b x y p order buf)
  scheduled-IsRowResult order s =
      let c =
        word_loop-IsCombined w v x y p apart_x apart_y order buf s.distinct s.below read_x read_y
          room bytes in
      record {
        out = c.out;
        returns = c.returns;
        same_length = c.same_length;
        bytes = c.bytes;
        row_byte = λ k hk.
            let e : 8 * (k / 8) + k % 8 ≡ k = omega arith in
            let place : p + 8 * (k / 8) + k % 8 ≡ p + k = omega arith in
            rw place at (
              rw e at (c.inside (k / 8) (k % 8) (s.complete (k / 8) (ground arith)) (omega arith)));
        outside = c.outside;
      }

  -- The rounds of the parallel loop of `And` and `Or` may be taken in any order, each once: the
  -- buffer comes out the same. The bitmap is valid, and the operands are rows of it, the result's
  -- own place, or places in the buffer beside that one.
  pub word_loop_any_order :
      (order : List ℕ)
      → IsSchedule (bound b) order
      → word_loop w.op b x y p order buf ≡ word_loop w.op b x y p (rounds_from 0 (bound b)) buf
  word_loop_any_order order s =
      let one = scheduled-IsRowResult order s in
      let two =
        scheduled-IsRowResult (rounds_from 0 (bound b)) (rounds_from-IsSchedule (bound b)) in
      one.returns
      ∙ ap some (
          get_or_ext 0 one.out two.out (one.same_length ∙ sym two.same_length)
            (IsRowResult-unique one two))
      ∙ sym two.returns

module _ {b : Bitmap} (v : IsValid b) (x y : Operand) (p : ℕ) (apart_x : Apart b p x)
    (apart_y : Apart b p y) (buf : List ℕ) (read_x : Readable b buf x) (read_y : Readable b buf y)
    (room : p + b.width ≤ length buf) (bytes : All IsByte buf) where
  -- `And` on a valid bitmap returns, and writes the bytewise `&` of its operands to the row at
  -- the result pointer and nothing else; the result pointer may be an operand. The operands are rows
  -- of the bitmap, or places in the buffer that are the result's own or do not meet it.
  pub and_words-IsRowResult : IsRowResult bit_and b x y p buf (and_words b x y p buf)
  unfolding and_words
  and_words-IsRowResult =
      scheduled-IsRowResult and_op v x y p apart_x apart_y buf read_x read_y room bytes
        (rounds_from 0 (bound b)) (rounds_from-IsSchedule (bound b))

  -- `Or` on a valid bitmap returns, and writes the bytewise `|` of its operands to the row at
  -- the result pointer and nothing else; the result pointer may be an operand. The operands are rows
  -- of the bitmap, or places in the buffer that are the result's own or do not meet it.
  pub or_words-IsRowResult : IsRowResult bit_or b x y p buf (or_words b x y p buf)
  unfolding or_words
  or_words-IsRowResult =
      scheduled-IsRowResult or_op v x y p apart_x apart_y buf read_x read_y room bytes
        (rounds_from 0 (bound b)) (rounds_from-IsSchedule (bound b))
