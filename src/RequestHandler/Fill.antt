-- ===== src/RequestHandler/Fill.antt =====
-- `memset` on the compute buffer of src/request_handler.cc.
use high_dimensional_flow_re.Base.{
  ℕ, zero, suc, ◌+◌, ◌≤◌, ◌<◌, ◌≡◌, inl, inr, refl, ◌∙◌, List, arith, ◌==◌, ==_iff, Bool-cases,
  length, get_or, set, length-set, get_or-set_self, get_or-set_ne, All, All-set,
}
use high_dimensional_flow_re.Base.Bytes.{IsByte}
use high_dimensional_flow_re.RequestHandler.{fill}

pub length-fill : (x i n : ℕ) (buf : List ℕ) → length (fill x i n buf) ≡ length buf
unfolding fill
length-fill x i zero buf = refl
length-fill x i (suc n) buf = length-fill x (i + 1) n (set buf i x) ∙ length-set buf i x

pub All-fill : (x i n : ℕ) (buf : List ℕ) → x < 256 → All IsByte buf → All IsByte (fill x i n buf)
unfolding fill
All-fill x i zero buf hx h = h
All-fill x i (suc n) buf hx h = All-fill x (i + 1) n (set buf i x) hx (All-set IsByte buf i x h hx)

fill-before :
    (x i n : ℕ) (buf : List ℕ) (j : ℕ) → j < i → get_or (fill x i n buf) j 0 ≡ get_or buf j 0
unfolding fill
fill-before x i zero buf j h = refl
fill-before x i (suc n) buf j h =
    fill-before x (i + 1) n (set buf i x) j (omega arith) ∙ get_or-set_ne buf i j x 0 (omega arith)

pub fill-inside :
    (x i n : ℕ) (buf : List ℕ) (j : ℕ)
    → i ≤ j
    → j < i + n
    → i + n ≤ length buf
    → get_or (fill x i n buf) j 0 ≡ x
unfolding fill
fill-inside x i zero buf j low high fits = absurd (omega arith)
fill-inside x i (suc n) buf j low high fits = elim (Bool-cases (j == i)) [
  | inl same ↦ rw ((==_iff j i).0 same) (
      fill-before x (i + 1) n (set buf i x) i (omega arith)
      ∙ get_or-set_self buf i x 0 (omega arith))
  | inr other ↦
      fill-inside x (i + 1) n (set buf i x) j (ground arith) (omega arith)
        (rw length-set (omega arith))
]
