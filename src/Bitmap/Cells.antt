-- ===== src/Bitmap/Cells.antt =====
-- The loops of `Generate` of common/bitmap.hpp: which bits of the cells are set.
use native.Mathlib.Nat.{mod-eq_of_lt, pow-suc, one-le-pow}
use high_dimensional_flow_re.Base.{
  ℕ, zero, suc, ◌+◌, ◌-◌, ◌*◌, ◌/◌, ◌%◌, ◌^◌, ◌≤◌, ◌<◌, bit_or, ◌≡◌, refl, ◌∙◌, Bool, true, false,
  ◌&&◌, ◌||◌, Option, some, List, [], ◌∷◌, arith, ltb, leb, ◌==◌, if◌then◌else◌, length, get_or,
  set, length-set, get_or-set_self, get_or-set_ne, get_elem?-eq-get_or, All, All-set, All-get_or,
  elem, all_below, all_lists_below, Bool-cases, ltb→lt, inl, inr,
}
use high_dimensional_flow_re.Base.Bits.{bit, bit-lt-two, bit-pow, or_op, bit-op, op-lt-byte}
use high_dimensional_flow_re.Base.Bytes.{IsByte}
use high_dimensional_flow_re.Bitmap.{Bitmap, set_bit, cell_index, fill_column, fill_columns}
use high_dimensional_flow_re.Bitmap.Mask.{row_bit}

-- The offset of a byte determines its row and its place in the row.
offset_injective : (w r s i j : ℕ) → i < w → j < w → r * w + i ≡ s * w + j → r ≡ s
offset_injective w r s i j hi hj e = grind arith

index_in_range : (w h r i : ℕ) → r < h → i < w → r * w + i < w * h
index_in_range w h r i hr hi = grind arith

-- Bit `k` of a byte after the write of `1 << m`.
or-bit : (k m x : ℕ) → bit k (bit_or x (2 ^ m)) ≡ (if k == m then 1 else bit k x)
or-bit k m x = ground (arith, bit-op or_op k x (2 ^ m), bit-pow k m, bit-lt-two k x)

pow-lt : (m n : ℕ) → m < n → 2 ^ m < 2 ^ n
pow-lt m zero h = absurd (omega arith)
pow-lt zero (suc n) h = omega (arith, pow-suc 2 n, one-le-pow n 2)
pow-lt (suc m) (suc n) h = omega (arith, pow-suc 2 m, pow-suc 2 n, pow-lt m n (omega arith))

-- The first column beside the columns behind it.
column_shift :
    (col c r : ℕ) (rows : List ℕ) (cols : List (List ℕ))
    → (leb col c && elem r (get_or (rows ∷ cols) (c - col) []))
      ≡ ((c == col && elem r rows) || (leb (col + 1) c && elem r (get_or cols (c - (col + 1)) [])))
column_shift col c r rows cols = elim (Bool-cases (leb col c)) [
  | inr left ↦ ground arith
  | inl right ↦ elim (Bool-cases (c == col)) [
    | inl same ↦ let e : c - col ≡ 0 = ground arith in rw e (ground arith)
    | inr other ↦ let e : c - col ≡ suc (c - (col + 1)) = ground arith in rw e (ground arith)
  ]
]

module _ (b : Bitmap) where
  abbrev pub with_cells : List ℕ → Bitmap
  with_cells cs = record b { cells = cs }

  -- The cells of a bitmap of the header of `b` in which the bits set are those that `f` tells.
  pub record CellsHold (f : ℕ → ℕ → Bool) (cs : List ℕ) : Type 0 where
    pub filled : length cs ≡ b.width * b.height
    pub bytes : All IsByte cs
    pub bits :
        (r c : ℕ)
        → r < b.height
        → c < 8 * b.width
        → row_bit (with_cells cs) r c ≡ (if f r c then 1 else 0)

  module _ (small : b.width * b.height < 2 ^ 32) where
    set_bit-bits :
        (cs : List ℕ) (row col r c : ℕ)
        → length cs ≡ b.width * b.height
        → row < b.height
        → col < 8 * b.width
        → r < b.height
        → c < 8 * b.width
        → let at = row * b.width + col / 8 in
          row_bit (with_cells (set cs at (bit_or (get_or cs at 0) (2 ^ (7 - col % 8))))) r c
          ≡ (if r == row && c == col then 1 else row_bit (with_cells cs) r c)
    set_bit-bits cs row col r c filled hrow hcol hr hc =
        let at = row * b.width + col / 8 in
        let place = r * b.width + c / 8 in
        let m = 7 - col % 8 in
        let x = get_or cs at 0 in
        ground (
          arith,
          index_in_range b.width b.height row (col / 8) hrow,
          offset_injective b.width r row (c / 8) (col / 8),
          get_or-set_self cs at (bit_or x (2 ^ m)) 0,
          get_or-set_ne cs at place (bit_or x (2 ^ m)) 0,
          or-bit (7 - c % 8) m x,
        )

    set_bit-CellsHold :
        (f : ℕ → ℕ → Bool) (cs : List ℕ) (row col : ℕ)
        → CellsHold f cs
        → row < b.height
        → col < 8 * b.width
        → (cs' : List ℕ) × (set_bit (with_cells cs) row col ≡ some (with_cells cs'))
          × CellsHold (λ r c. (r == row && c == col) || f r c) cs'
    set_bit-CellsHold f cs row col v hrow hcol =
        let at = row * b.width + col / 8 in
        let inside : at < length cs =
          rw v.filled (index_in_range b.width b.height row (col / 8) hrow (omega arith)) in
        let place : cell_index (with_cells cs) row col ≡ at =
          mod-eq_of_lt (omega (arith, inside, v.filled)) in
        let old : get_or cs at 0 < 256 = All-get_or IsByte cs at 0 v.bytes (omega arith) in
        let new = bit_or (get_or cs at 0) (2 ^ (7 - col % 8)) in
        (
          set cs at new,
          unfold set_bit in rw (place, get_elem?-eq-get_or cs at 0 inside),
          record {
            filled = length-set cs at new ∙ v.filled;
            bytes = All-set IsByte cs at new v.bytes (
                op-lt-byte or_op (get_or cs at 0) (2 ^ (7 - col % 8)) old
                  (pow-lt (7 - col % 8) 8 (omega arith)));
            bits = λ r c hr hc.
                ground
                  (arith, v.bits r c hr hc, set_bit-bits cs row col r c v.filled hrow hcol hr hc);
          },
        )

    CellsHold-ext :
        (f g : ℕ → ℕ → Bool) (cs : List ℕ)
        → ((r c : ℕ) → f r c ≡ g r c)
        → CellsHold f cs
        → CellsHold g cs
    CellsHold-ext f g cs e v = record {
      filled = v.filled;
      bytes = v.bytes;
      bits = λ r c hr hc. rw (← e r c) (v.bits r c hr hc);
    }

    -- What a loop of `Generate` returns from a bitmap with the cells `cs`: no fault, the verdict
    -- `ok`, and, where that is true, cells with the bits that `g` tells.
    pub record FillsTo (ok : Bool) (g : ℕ → ℕ → Bool) (result : Option (Bool × Bitmap))
        : Type 0 where
      pub cells : List ℕ
      pub returns : result ≡ some (ok, with_cells cells)
      pub holds : ok ≡ true → CellsHold g cells

    fill_column-FillsTo :
        (col : ℕ) (rows : List ℕ) (f : ℕ → ℕ → Bool) (cs : List ℕ)
        → CellsHold f cs
        → col < 8 * b.width
        → FillsTo
            (all_below b.height rows)
            (λ r c. (c == col && elem r rows) || f r c)
            (fill_column col rows (with_cells cs))
    unfolding fill_column
    fill_column-FillsTo col [] f cs v hcol = record {
      cells = cs;
      returns = refl;
      holds = λ _. CellsHold-ext f (λ r c. (c == col && false) || f r c) cs (λ r c. ground arith) v;
    }
    fill_column-FillsTo col (row ∷ rows) f cs v hcol = elim (Bool-cases (ltb row b.height)) [
      | inr high ↦ record { cells = cs; returns = ground arith; holds = λ e. ground arith }
      | inl low ↦
          let (cs', step, v') = set_bit-CellsHold f cs row col v (ltb→lt row b.height low) hcol in
          let rest =
            fill_column-FillsTo col rows (λ r c. (r == row && c == col) || f r c) cs' v' hcol in
          record {
            cells = rest.cells;
            returns = ground (arith, step, rest.returns);
            holds = λ e.
                CellsHold-ext
                  (λ r c. (c == col && elem r rows) || ((r == row && c == col) || f r c))
                  (λ r c. (c == col && (r == row || elem r rows)) || f r c) rest.cells
                  (λ r c. ground arith) (rest.holds (ground arith));
          }
    ]

    pub fill_columns-FillsTo :
        (col : ℕ) (cols : List (List ℕ)) (f : ℕ → ℕ → Bool) (cs : List ℕ)
        → CellsHold f cs
        → col + length cols ≤ 8 * b.width
        → FillsTo
            (all_lists_below b.height cols)
            (λ r c. (leb col c && elem r (get_or cols (c - col) [])) || f r c)
            (fill_columns col cols (with_cells cs))
    unfolding fill_columns
    fill_columns-FillsTo col [] f cs v hcol = record {
      cells = cs;
      returns = refl;
      holds =
          λ _. CellsHold-ext f (λ r c. (leb col c && false) || f r c) cs (λ r c. ground arith) v;
    }
    fill_columns-FillsTo col (rows ∷ cols) f cs v hcol =
        let here = fill_column-FillsTo col rows f cs v (omega arith) in
        elim (Bool-cases (all_below b.height rows)) [
          | inr high ↦ record {
            cells = here.cells;
            returns = ground (arith, here.returns);
            holds = λ e. ground arith;
          }
          | inl low ↦
              let rest =
                fill_columns-FillsTo (col + 1) cols (λ r c. (c == col && elem r rows) || f r c)
                  here.cells (here.holds low) (omega arith) in
              record {
                cells = rest.cells;
                returns = ground (arith, here.returns, rest.returns);
                holds = λ e.
                    CellsHold-ext
                      (λ r c.
                        (leb (col + 1) c && elem r (get_or cols (c - (col + 1)) []))
                        || ((c == col && elem r rows) || f r c))
                      (λ r c. (leb col c && elem r (get_or (rows ∷ cols) (c - col) [])) || f r c)
                      rest.cells (λ r c. ground (arith, column_shift col c r rows cols))
                      (rest.holds (ground arith));
              }
        ]
