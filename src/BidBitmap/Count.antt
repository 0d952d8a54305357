-- ===== src/BidBitmap/Count.antt =====
-- `Count` of include/bid_bitmap.hpp against sums over the samples.
use high_dimensional_flow_re.Base.{
  ℕ, zero, suc, ◌+◌, ◌-◌, ◌*◌, ◌≤◌, ◌<◌, ◌≡◌, refl, sym, ◌∙◌, some, List, [], ◌∷◌, arith, ◌>>=◌,
  length, get_elem?, get_or, get_elem?-eq-get_or, All, All-imp,
}
use high_dimensional_flow_re.Base.Sums.{sum_over, sum_of, sum_over-add}
use high_dimensional_flow_re.Bitmap.Pop.{
  fold_opt, set_bits, pop_each_lem, set_bits-sum, set_bits-All,
}
use high_dimensional_flow_re.Bitmap.Mask.{mask_bytes, mask_bit, column-at, sum_over-byte}
use high_dimensional_flow_re.BidBitmap.{Result, add_bid, count_loop}

module _ (mask bids : List ℕ) (bid : ℕ) where
  abbrev pub bid_at : ℕ → ℕ
  bid_at c = get_or bids c 0

  -- What the loops compute where no access fails.
  adds : ℕ → List ℕ → Result → Result
  adds i [] r = r
  adds i (j ∷ js) r = adds i js (add_bid bid (bid_at (8 * i + 7 - j)) r)

  pub adds_loop : ℕ → ℕ → Result → Result
  adds_loop zero i r = r
  adds_loop (suc n) i r = adds_loop n (i + 1) (adds i (set_bits (get_or mask i 0)) r)

  fold-adds :
      (i : ℕ) (js : List ℕ) (r : Result)
      → All (λ j. 8 * i + 7 - j < length bids) js
      → fold_opt (λ j t. get_elem? bids (8 * i + 7 - j) >>= λ _bid. some (add_bid bid _bid t)) js r
        ≡ some (adds i js r)
  unfolding adds
  fold-adds i [] r h = refl
  fold-adds i (j ∷ js) r h =
      rw (get_elem?-eq-get_or bids (8 * i + 7 - j) 0 h.0)
        (fold-adds i js (add_bid bid (bid_at (8 * i + 7 - j)) r) h.1)

  -- A statistic that every sample raises by its weight, up to a bound that is not passed.
  module _ (stat : Result → ℕ) (weight : ℕ → ℕ) (limit : ℕ)
      (law : (b : ℕ) (r : Result)
        → stat r + weight b < limit
        → stat (add_bid bid b r) ≡ stat r + weight b) where
    stat-adds :
        (i : ℕ) (js : List ℕ) (r : Result)
        → stat r + sum_of (λ j. weight (bid_at (8 * i + 7 - j))) js < limit
        → stat (adds i js r) ≡ stat r + sum_of (λ j. weight (bid_at (8 * i + 7 - j))) js
    unfolding adds sum_of
    stat-adds i [] r h = omega arith
    stat-adds i (j ∷ js) r h =
        let b = bid_at (8 * i + 7 - j) in
        let one : stat (add_bid bid b r) ≡ stat r + weight b = law b r (omega arith) in
        omega (arith, one, stat-adds i js (add_bid bid b r) (rw one (omega arith)))

    abbrev pub weighted : ℕ → ℕ
    weighted c = mask_bit mask c * weight (bid_at c)

    pub stat-adds_loop :
        (n i : ℕ) (r : Result)
        → stat r + sum_over weighted (8 * i) (8 * n) < limit
        → stat (adds_loop n i r) ≡ stat r + sum_over weighted (8 * i) (8 * n)
    unfolding adds_loop
    stat-adds_loop zero i r h = unfold sum_over in omega arith
    stat-adds_loop (suc n) i r h =
        let bytes = mask_bytes mask in
        let js = set_bits (bytes i) in
        let first = sum_over weighted (8 * i) 8 in
        let rest = sum_over weighted (8 * (i + 1)) (8 * n) in
        let byte : sum_of (λ j. weight (bid_at (8 * i + 7 - j))) js ≡ first =
          set_bits-sum (λ j. weight (bid_at (8 * i + 7 - j))) (bytes i)
          ∙ sym (sum_over-byte bytes (λ c. weight (bid_at c)) i) in
        let eight : 8 * suc n ≡ 8 + 8 * n = omega arith in
        let split : sum_over weighted (8 * i) (8 * suc n) ≡ first + rest =
          rw eight (sum_over-add weighted (8 * i) 8 (8 * n) (8 * (i + 1)) (omega arith)) in
        let here : stat (adds i js r) ≡ stat r + first =
          rw (← byte) (stat-adds i js r (omega (arith, byte, split))) in
        omega
          (arith, split, here, stat-adds_loop n (i + 1) (adds i js r) (omega (arith, split, here)))

  -- Where every selected column has a bid, and the mask is long enough, no access fails.
  pub count_loop-eq-adds :
      (n i : ℕ) (r : Result)
      → ((k : ℕ) → i ≤ k → k < i + n → (k < length mask) × (get_or mask k 0 < 256))
      → ((c : ℕ) → 8 * i ≤ c → c < 8 * (i + n) → mask_bit mask c ≡ 1 → c < length bids)
      → count_loop mask bids bid n i r ≡ some (adds_loop n i r)
  unfolding count_loop adds_loop
  count_loop-eq-adds zero i r readable priced = refl
  count_loop-eq-adds (suc n) i r readable priced =
      let x = get_or mask i 0 in
      let (long, byte) = readable i (omega arith) (omega arith) in
      let in_range =
        All-imp {Q = λ j. 8 * i + 7 - j < length bids} (set_bits x)
          (λ j h.
            let place : 7 - (7 - j) ≡ j = omega arith in
            priced (8 * i + 7 - j) (omega arith) (omega arith) (
              column-at (mask_bytes mask) (8 * i + 7 - j) i (7 - j) (omega arith) (omega arith)
              ∙ rw place h.1))
          (set_bits-All x) in
      rw
        (
          get_elem?-eq-get_or mask i 0 long,
          pop_each_lem (λ j t. get_elem? bids (8 * i + 7 - j) >>= λ _bid. some (add_bid bid _bid t))
              x r byte,
          fold-adds i (set_bits x) r in_range,
        )
        (count_loop-eq-adds n (i + 1) (adds i (set_bits x) r)
          (λ k p q. readable k (omega arith) (omega arith))
          (λ c p q e. priced c (omega arith) (omega arith) e))
