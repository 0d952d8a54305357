-- ===== src/RequestHandler/Target.antt =====
-- The loops of `GetTarget` of src/request_handler.cc over the targets of one group.
use high_dimensional_flow_re.Base.{
  ℕ, ◌+◌, ◌*◌, ◌/◌, ◌≤◌, ◌<◌, ◌≡◌, ◌⊎◌, inl, refl, ◌∙◌, Bool, true, false, ◌&&◌, ◌||◌, Option, some,
  List, [], ◌∷◌, arith, ◌==◌, if◌then◌else◌, ◌>>=◌, length, get_or, All, all_below,
}
use high_dimensional_flow_re.Base.Bits.{WordOp, and_op, or_op}
use high_dimensional_flow_re.Base.Bytes.{IsByte}
use high_dimensional_flow_re.Bitmap.{Bitmap, Operand, row, at, and_words, or_words}
use high_dimensional_flow_re.Bitmap.Mask.{column, row_bit, column-lt-two, row_bytes}
use high_dimensional_flow_re.Bitmap.Valid.{IsValid}
use high_dimensional_flow_re.Bitmap.Words.{source, Readable, Apart}
use high_dimensional_flow_re.Bitmap.AndOr.{
  IsRowResult, result_column, and_words-IsRowResult, or_words-IsRowResult,
}
use high_dimensional_flow_re.RequestHandler.{or_more}

-- Sample `c` has target `t`; a target of the group; a target of each group.
abbrev pub has : Bitmap → ℕ → ℕ → Bool
has b t c = row_bit b t c == 1

abbrev pub has_any : Bitmap → List ℕ → ℕ → Bool
has_any b [] c = false
has_any b (t ∷ ts) c = has b t c || has_any b ts c

abbrev pub has_each : Bitmap → List (List ℕ) → ℕ → Bool
has_each b [] c = true
has_each b (g ∷ gs) c = has_any b g c && has_each b gs c

-- An operand holds the columns that `f` tells.
abbrev pub Shows : Bitmap → List ℕ → Operand → (ℕ → Bool) → Type 0
Shows b buf x f = (c : ℕ) → c < 8 * b.width → column (source b buf x) c ≡ (if f c then 1 else 0)

abbrev pub Beside : Bitmap → ℕ → ℕ → Type 0
Beside b p q = (q + b.width ≤ p) ⊎ (p + b.width ≤ q)

-- A call has returned a buffer of the same length with the columns of `f` at `p`, and rows that
-- do not meet that place are as before.
pub record Writes (b : Bitmap) (p : ℕ) (f : ℕ → Bool) (buf : List ℕ) (result : Option (List ℕ))
    : Type 0 where
  pub out : List ℕ
  pub returns : result ≡ some out
  pub same_length : length out ≡ length buf
  pub bytes : All IsByte out
  pub shows : Shows b out (at p) f
  pub keeps : (q : ℕ) (g : ℕ → Bool) → Beside b p q → Shows b buf (at q) g → Shows b out (at q) g

pub row-Shows : (b : Bitmap) (buf : List ℕ) (t : ℕ) → Shows b buf (row t) (has b t)
row-Shows b buf t c h = ground (arith, column-lt-two (row_bytes b t) c)

module _ {b : Bitmap} (v : IsValid b) where
  -- From the bytes of a row result to its columns.
  IsRowResult-Writes :
      (w : WordOp) {x y : Operand} {p : ℕ} {buf : List ℕ} {result : Option (List ℕ)}
      (f g h : ℕ → Bool)
      → IsRowResult w.op b x y p buf result
      → Shows b buf x f
      → Shows b buf y g
      → ((c : ℕ) → w.digit (if f c then 1 else 0) (if g c then 1 else 0) ≡ (if h c then 1 else 0))
      → Writes b p h buf result
  IsRowResult-Writes w {buf} f g h r shows_x shows_y digits = record {
    out = r.out;
    returns = r.returns;
    same_length = r.same_length;
    bytes = r.bytes;
    shows = λ c hc. result_column w r c hc ∙ rw (shows_x c hc, shows_y c hc) (digits c);
    keeps = λ q k beside shows_q c hc.
        let same : get_or r.out (q + c / 8) 0 ≡ get_or buf (q + c / 8) 0 =
          r.outside (q + c / 8) (omega arith) in
        rw same (shows_q c hc);
  }

  pub or-Writes :
      (x y : Operand) (p : ℕ) (buf : List ℕ) (f g : ℕ → Bool)
      → Apart b p x
      → Apart b p y
      → Readable b buf x
      → Readable b buf y
      → p + b.width ≤ length buf
      → All IsByte buf
      → Shows b buf x f
      → Shows b buf y g
      → Writes b p (λ c. f c || g c) buf (or_words b x y p buf)
  or-Writes x y p buf f g ax ay rx ry room bytes sx sy =
      IsRowResult-Writes or_op f g (λ c. f c || g c)
        (or_words-IsRowResult v x y p ax ay buf rx ry room bytes) sx sy (λ c. ground arith)

  pub and-Writes :
      (x y : Operand) (p : ℕ) (buf : List ℕ) (f g : ℕ → Bool)
      → Apart b p x
      → Apart b p y
      → Readable b buf x
      → Readable b buf y
      → p + b.width ≤ length buf
      → All IsByte buf
      → Shows b buf x f
      → Shows b buf y g
      → Writes b p (λ c. f c && g c) buf (and_words b x y p buf)
  and-Writes x y p buf f g ax ay rx ry room bytes sx sy =
      IsRowResult-Writes and_op f g (λ c. f c && g c)
        (and_words-IsRowResult v x y p ax ay buf rx ry room bytes) sx sy (λ c. ground arith)

  Writes-seq :
      (p : ℕ) (f g h : ℕ → Bool) (buf : List ℕ) {m : Option (List ℕ)} (k : List ℕ → Option (List ℕ))
      → (first : Writes b p f buf m) → Writes b p g first.out (k first.out)
      → ((c : ℕ) → g c ≡ h c)
      → Writes b p h buf (m >>= k)
  Writes-seq p f g h buf k first rest e = record {
    out = rest.out;
    returns = rw first.returns rest.returns;
    same_length = rest.same_length ∙ first.same_length;
    bytes = rest.bytes;
    shows = λ c hc. rw (← e c) (rest.shows c hc);
    keeps = λ q j beside s. rest.keeps q j beside (first.keeps q j beside s);
  }

  or_more-Writes :
      (p : ℕ) (ts : List ℕ) (buf : List ℕ) (f : ℕ → Bool)
      → all_below b.height ts ≡ true
      → p + b.width ≤ length buf
      → All IsByte buf
      → Shows b buf (at p) f
      → Writes b p (λ c. f c || has_any b ts c) buf (or_more b p ts buf)
  unfolding or_more
  or_more-Writes p [] buf f below room bytes s = record {
    out = buf;
    returns = refl;
    same_length = refl;
    bytes = bytes;
    shows = λ c hc. ground (arith, s c hc);
    keeps = λ q g beside h. h;
  }
  or_more-Writes p (t ∷ ts) buf f below room bytes s =
      let first =
        or-Writes (row t) (at p) p buf (has b t) f tt (inl refl) (ground arith) room room bytes
          (row-Shows b buf t) s in
      Writes-seq p (λ c. has b t c || f c) (λ c. (has b t c || f c) || has_any b ts c)
        (λ c. f c || has_any b (t ∷ ts) c) buf (or_more b p ts) first
        (or_more-Writes p ts first.out (λ c. has b t c || f c) (ground arith)
          (rw first.same_length room) first.bytes first.shows)
        (λ c. ground arith)

  -- Two rows and those that follow, into `p`.
  pub or_rows-Writes :
      (p t u : ℕ) (ts buf : List ℕ)
      → all_below b.height (t ∷ u ∷ ts) ≡ true
      → p + b.width ≤ length buf
      → All IsByte buf
      → Writes b p
          (has_any b (t ∷ u ∷ ts))
          buf
          (or_words b (row t) (row u) p buf >>= or_more b p ts)
  or_rows-Writes p t u ts buf below room bytes =
      let first =
        or-Writes (row t) (row u) p buf (has b t) (has b u) tt tt (ground arith) (ground arith) room
          bytes (row-Shows b buf t) (row-Shows b buf u) in
      Writes-seq p (λ c. has b t c || has b u c) (λ c. (has b t c || has b u c) || has_any b ts c)
        (has_any b (t ∷ u ∷ ts)) buf (or_more b p ts) first
        (or_more-Writes p ts first.out (λ c. has b t c || has b u c) (ground arith)
          (rw first.same_length room) first.bytes first.shows)
        (λ c. ground arith)
