-- ===== src/BidBitmap/Faults.antt =====
-- When `Count` of include/bid_bitmap.hpp reads past the bids.
use high_dimensional_flow_re.Base.{
  ℕ, zero, suc, ◌+◌, ◌-◌, ◌*◌, ◌/◌, ◌%◌, ◌^◌, ◌≤◌, ◌<◌, ◌≡◌, ◌∙◌, inl, inr, true, Option, none,
  some, List, [], ◌∷◌, arith, lt→ltb, ◌==◌, ==_iff, ◌>>=◌, length, get_elem?, get_or,
  get_elem?-eq-none, get_or-eq_of_get_elem?, >>=-none, All, All-get_or, elem, Bool-cases,
  Option-cases,
}
use high_dimensional_flow_re.Base.Bits.{bit}
use high_dimensional_flow_re.Base.Bytes.{IsByte}
use high_dimensional_flow_re.Bitmap.{pop_each, pop_rounds}
use high_dimensional_flow_re.Bitmap.Pop.{fold_opt, set_bits, pop_each_lem, elem-set_bits}
use high_dimensional_flow_re.Bitmap.Mask.{mask_bit}
use high_dimensional_flow_re.BidBitmap.{Result, BidBitmap, zero_result, add_bid, count_loop, count}

-- One element at which the body fails makes the loop over the list fail.
fold-none :
    (body : ℕ → Result → Option Result) (js : List ℕ) (j : ℕ) (r : Result)
    → elem j js ≡ true
    → ((t : Result) → body j t ≡ none)
    → fold_opt body js r ≡ none
fold-none body [] j r e fails = ground arith
fold-none body (i ∷ js) j r e fails = elim (Option-cases (body i r)) [
  | inl stop ↦ rw stop
  | inr (r', go) ↦ rw go (fold-none body js j r' (later r' go) fails)
]
  where
    later : (r' : Result) → body i r ≡ some r' → elem j js ≡ true
    later r' go = elim (Bool-cases (j == i)) [
      | inl same ↦ cc ((==_iff j i).0 same, fails r, go)
      | inr other ↦ ground arith
    ]

-- The byte of a selected column that has no bid makes the inner loop fail.
byte-none :
    (mask bids : List ℕ) (bid i c s : ℕ) (r : Result)
    → s < 256
    → get_or mask i 0 ≡ s
    → c / 8 ≡ i
    → length bids ≤ c
    → mask_bit mask c ≡ 1
    → pop_each
        (λ j t. get_elem? bids (8 * i + 7 - j) >>= λ _bid. some (add_bid bid _bid t))
        pop_rounds
        s
        r
      ≡ none
byte-none mask bids bid i c s r byte value place missing selected =
    let body = λ (j : ℕ) (t : Result).
      get_elem? bids (8 * i + 7 - j) >>= λ _bid. some (add_bid bid _bid t) in
    let index : 8 * i + 7 - (7 - c % 8) ≡ c = omega arith in
    let is_set : bit (7 - c % 8) s ≡ 1 = rw (← value, ← place) selected in
    pop_each_lem body s r byte
    ∙ fold-none body (set_bits s) (7 - c % 8) r (elem-set_bits s (7 - c % 8) (omega arith) is_set)
        (λ t. rw (index, get_elem?-eq-none bids c missing))

-- The loop over the bytes gets to that byte, or fails before.
count_loop-none :
    (mask bids : List ℕ) (bid n i c : ℕ) (r : Result)
    → All IsByte mask
    → 8 * i ≤ c
    → c < 8 * (i + n)
    → length bids ≤ c
    → mask_bit mask c ≡ 1
    → count_loop mask bids bid n i r ≡ none
unfolding count_loop
count_loop-none mask bids bid zero i c r bytes low high missing selected = absurd (omega arith)
count_loop-none mask bids bid (suc n) i c r bytes low high missing selected =
    elim (Option-cases (get_elem? mask i)) [
      | inl stop ↦ rw stop
      | inr (s, read) ↦
          let value : get_or mask i 0 ≡ s = get_or-eq_of_get_elem? mask i 0 s read in
          let byte : s < 256 = rw (← value) (All-get_or IsByte mask i 0 bytes (omega arith)) in
          elim (Bool-cases (c / 8 == i)) [
            | inl here ↦ rw (
              read,
              byte-none mask bids bid i c s r byte value ((==_iff _ _).0 here) missing selected,
            )
            | inr later ↦ rw read (
                >>=-none
                  (pop_each
                    (λ j t. get_elem? bids (8 * i + 7 - j) >>= λ _bid. some (add_bid bid _bid t))
                    pop_rounds s r)
                  (count_loop mask bids bid n (i + 1))
                  (λ r'.
                    count_loop-none mask bids bid n (i + 1) c r' bytes (ground arith) (omega arith)
                      missing selected))
          ]
    ]

-- `Count` reads outside an array when the mask selects a column of the row that has no bid. The
-- row has fewer than 2 ^ 31 bytes.
pub count-none :
    (b : BidBitmap) (mask : List ℕ) (bid c : ℕ)
    → All IsByte mask
    → b.width < 2 ^ 31
    → c < 8 * b.width
    → length b.bids ≤ c
    → mask_bit mask c ≡ 1
    → count b mask bid ≡ none
unfolding count
count-none b mask bid c bytes small low missing selected = rw (lt→ltb b.width (2 ^ 31) small) (
    count_loop-none mask b.bids bid b.width 0 c zero_result bytes (omega arith) (omega arith)
      missing selected)
