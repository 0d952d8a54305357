-- ===== src/Bitmap/Words.antt =====
-- The loop of `And` and `Or` of common/bitmap.hpp over 64-bit words.
use native.Mathlib.Nat.{mod-eq_of_lt}
use mathlib.Core.Path.{ap₂}
use high_dimensional_flow_re.Base.{
  ℕ, ◌+◌, ◌*◌, ◌≤◌, ◌<◌, ◌≡◌, ◌≢◌, ◌⊎◌, inl, inr, refl, ap, ==_iff, ◌∙◌, true, false, Option, some,
  List, [], ◌∷◌, arith, ◌==◌, u32, length, get_or, All, All-get_or, elem, all_below, Bool-cases,
}
use high_dimensional_flow_re.Base.Bits.{byte, WordOp, byte-op}
use high_dimensional_flow_re.Base.Bytes.{
  IsByte, load_word, store_word, length-store_word, All-store_word, store_word-outside,
  store_word-inside, byte-load_word,
}
use high_dimensional_flow_re.Bitmap.{
  Bitmap, Operand, row, at, load64, store64, fetch, word_loop, bound,
}
use high_dimensional_flow_re.Bitmap.Mask.{row_bytes}
use high_dimensional_flow_re.Bitmap.Valid.{IsValid}

-- The bytes that an operand stands for.
abbrev pub source : Bitmap → List ℕ → Operand → ℕ → ℕ
source b buf (row r) k = row_bytes b r k
source b buf (at q) k = get_or buf (q + k) 0

-- A row of the bitmap, or a whole row's room in the buffer.
abbrev pub Readable : Bitmap → List ℕ → Operand → Type 0
Readable b buf (row r) = r < b.height
Readable b buf (at q) = q + b.width ≤ length buf

-- An operand in the buffer is the result's place itself, or shares no byte with it.
abbrev pub Apart : Bitmap → ℕ → Operand → Type 0
Apart b p (row r) = Unit {0}
Apart b p (at q) = (q ≡ p) ⊎ ((q + b.width ≤ p) ⊎ (p + b.width ≤ q))

abbrev pub Distinct : List ℕ → Type 0
Distinct [] = Unit
Distinct (i ∷ is) = (elem i is ≡ false) × Distinct is

Readable-length :
    (b : Bitmap) (x : Operand) (buf buf' : List ℕ)
    → length buf' ≡ length buf
    → Readable b buf x
    → Readable b buf' x
Readable-length b (row r) buf buf' e h = h
Readable-length b (at q) buf buf' e h = omega arith

lt-elem : (n : ℕ) (is : List ℕ) (j : ℕ) → all_below n is ≡ true → elem j is ≡ true → j < n
lt-elem n [] j below e = ground arith
lt-elem n (i ∷ is) j below e = ground (arith, lt-elem n is j)

bytes_below : (buf : List ℕ) → All IsByte buf → (j : ℕ) → get_or buf j 0 < 256
bytes_below buf h j = All-get_or IsByte buf j 0 h (omega arith)

row_end : (w h r i : ℕ) → r < h → 8 * i + 8 ≤ w → r * w + (8 * i + 8) ≤ w * h
row_end w h r i hr hi = grind arith

module _ {b : Bitmap} (v : IsValid b) where
  word_in_row : (i : ℕ) → i < bound b → 8 * i + 8 ≤ b.width
  word_in_row i h = ground (arith, v.whole_words)

  -- A round reads, of either operand, the word of its eight bytes.
  fetch_lem :
      (x : Operand) (buf : List ℕ) (i : ℕ)
      → Readable b buf x
      → All IsByte buf
      → i < bound b
      → (w : ℕ) × (fetch b buf i x ≡ some w)
        × ((k : ℕ) → k < 8 → byte k w ≡ source b buf x (8 * i + k))
  unfolding fetch load64
  fetch_lem (row r) buf i readable bytes h =
      let fits : r * b.width + (8 * i + 8) ≤ b.width * b.height =
        row_end b.width b.height r i readable (word_in_row i h) in
      let start : u32 (r * b.width) ≡ r * b.width = mod-eq_of_lt (omega (arith, v.offsets)) in
      (
        load_word 8 b.cells (r * b.width + 8 * i),
        rw start (ground (arith, v.filled)),
        λ k hk.
            byte-load_word 8 b.cells (r * b.width + 8 * i) k (bytes_below b.cells v.bytes) hk
            ∙ ap (λ j. get_or b.cells j 0) (omega arith),
      )
  fetch_lem (at q) buf i readable bytes h = (
    load_word 8 buf (q + 8 * i),
    ground (arith, word_in_row i h),
    λ k hk.
        byte-load_word 8 buf (q + 8 * i) k (bytes_below buf bytes) hk
        ∙ ap (λ j. get_or buf j 0) (omega arith),
  )

  -- A store of one word leaves the other words of the operands alone.
  source-store_word :
      (x : Operand) (buf : List ℕ) (p i j k w : ℕ)
      → Apart b p x
      → i < bound b
      → j < bound b
      → i ≢ j
      → k < 8
      → source b (store_word 8 buf (p + 8 * i) w) x (8 * j + k) ≡ source b buf x (8 * j + k)
  source-store_word (row r) buf p i j k w apart hi hj ne hk = refl
  source-store_word (at q) buf p i j k w apart hi hj ne hk =
      store_word-outside 8 buf (p + 8 * i) w (q + (8 * j + k))
        (ground (arith, word_in_row i hi, word_in_row j hj))

-- The rounds of `rounds` are done: the loop has returned, those words hold the operands of
-- `buf` combined, and no other byte has changed.
pub record IsCombined (op : ℕ → ℕ → ℕ) (b : Bitmap) (x y : Operand) (p : ℕ) (rounds buf : List ℕ)
    (result : Option (List ℕ)) : Type 0 where
  pub out : List ℕ
  pub returns : result ≡ some out
  pub same_length : length out ≡ length buf
  pub bytes : All IsByte out
  pub inside :
      (i k : ℕ)
      → elem i rounds ≡ true
      → k < 8
      → get_or out (p + 8 * i + k) 0 ≡ op (source b buf x (8 * i + k)) (source b buf y (8 * i + k))
  pub skipped :
      (i k : ℕ)
      → elem i rounds ≡ false
      → k < 8
      → get_or out (p + 8 * i + k) 0 ≡ get_or buf (p + 8 * i + k) 0
  pub outside : (j : ℕ) → (j < p) ⊎ (p + b.width ≤ j) → get_or out j 0 ≡ get_or buf j 0

module _ (w : WordOp) {b : Bitmap} (v : IsValid b) (x y : Operand) (p : ℕ) (apart_x : Apart b p x)
    (apart_y : Apart b p y) where
  -- One round before the others, once its word is known.
  IsCombined-cons :
      (i : ℕ) (rounds buf : List ℕ) (value : ℕ) {result : Option (List ℕ)}
      → elem i rounds ≡ false
      → i < bound b
      → all_below (bound b) rounds ≡ true
      → p + b.width ≤ length buf
      → ((k : ℕ)
          → k < 8
          → byte k value ≡ w.op (source b buf x (8 * i + k)) (source b buf y (8 * i + k)))
      → IsCombined w.op b x y p rounds (store_word 8 buf (p + 8 * i) value) result
      → IsCombined w.op b x y p (i ∷ rounds) buf result
  IsCombined-cons i rounds buf value fresh hi below room value_bytes rest = record {
    out = rest.out;
    returns = rest.returns;
    same_length = rest.same_length ∙ length-store_word 8 buf (p + 8 * i) value;
    bytes = rest.bytes;
    inside = λ j k e hk. elim (Bool-cases (j == i)) [
      | inl same ↦ rw ((==_iff j i).0 same) (
          rest.skipped i k fresh hk
          ∙ store_word-inside 8 buf (p + 8 * i) value k hk (omega (arith, word_in_row v i hi))
          ∙ value_bytes k hk)
      | inr other ↦
          let later : elem j rounds ≡ true = ground arith in
          let hj : j < bound b = lt-elem (bound b) rounds j below later in
          rest.inside j k later hk
          ∙ ap₂ w.op (source-store_word v x buf p i j k value apart_x hi hj (ground arith) hk)
              (source-store_word v y buf p i j k value apart_y hi hj (ground arith) hk)
    ];
    skipped = λ j k e hk.
        rest.skipped j k (ground arith) hk
        ∙ store_word-outside 8 buf (p + 8 * i) value (p + 8 * j + k) (ground arith);
    outside = λ j h.
        rest.outside j h
        ∙ store_word-outside 8 buf (p + 8 * i) value j (ground (arith, word_in_row v i hi));
  }

  -- The rounds of `And` and `Or`, in any order without repetition.
  pub word_loop-IsCombined :
      (rounds buf : List ℕ)
      → Distinct rounds
      → all_below (bound b) rounds ≡ true
      → Readable b buf x
      → Readable b buf y
      → p + b.width ≤ length buf
      → All IsByte buf
      → IsCombined w.op b x y p rounds buf (word_loop w.op b x y p rounds buf)
  unfolding word_loop store64
  word_loop-IsCombined [] buf distinct below read_x read_y room bytes = record {
    out = buf;
    returns = refl;
    same_length = refl;
    bytes = bytes;
    inside = λ i k e hk. ground arith;
    skipped = λ i k e hk. refl;
    outside = λ j h. refl;
  }
  word_loop-IsCombined (i ∷ rounds) buf distinct below read_x read_y room bytes =
      let hi : i < bound b = ground arith in
      let later : all_below (bound b) rounds ≡ true = ground arith in
      let (first, fetched_x, first_bytes) = fetch_lem v x buf i read_x bytes hi in
      let (second, fetched_y, second_bytes) = fetch_lem v y buf i read_y bytes hi in
      let value = w.op first second in
      let buf' = store_word 8 buf (p + 8 * i) value in
      let same = length-store_word 8 buf (p + 8 * i) value in
      let rest =
        word_loop-IsCombined rounds buf' distinct.1 later (Readable-length b x buf buf' same read_x)
          (Readable-length b y buf buf' same read_y) (rw length-store_word room)
          (All-store_word 8 buf (p + 8 * i) value bytes) in
      let step : word_loop w.op b x y p (i ∷ rounds) buf ≡ word_loop w.op b x y p rounds buf' =
        ground (arith, word_in_row v i hi, fetched_x, fetched_y) in
      rw step (
        IsCombined-cons i rounds buf value distinct.0 hi later room
          (λ k hk. byte-op w k first second ∙ ap₂ w.op (first_bytes k hk) (second_bytes k hk)) rest)
