-- ===== src/RequestHandler/Visitors.antt =====
-- Where the visitors go in `Process` of src/request_handler.cc.
use mathlib.Core.Option.{some-injective, none-ne-some}
use high_dimensional_flow_re.Base.{
  ℕ, ◌≡◌, refl, ap, sym, ◌∙◌, false, Option, none, some, List, [], ◌∷◌, ◌>>=◌, arith, Bool-cases,
  inl, inr,
}
use high_dimensional_flow_re.Base.Ints.{ℤ}
use high_dimensional_flow_re.BidBitmap.{Result}
use high_dimensional_flow_re.PvBidBitmap.{PvBidBitmap}
use high_dimensional_flow_re.UvBidBitmap.{UvBidBitmap}
use high_dimensional_flow_re.PvBidBitmap.Rates.{get_hourly_ctr}
use high_dimensional_flow_re.UvMergeBitmap.{UvMergeBitmap}
use high_dimensional_flow_re.RequestHandler.UvMerge.{merge_counts}
use high_dimensional_flow_re.Index.{Index, lookup}
use high_dimensional_flow_re.QueryParser.{QueryData}
use high_dimensional_flow_re.Numbers.{Numbers}
use high_dimensional_flow_re.Param.{Param}
use high_dimensional_flow_re.RequestHandler.{target_count}
use high_dimensional_flow_re.RequestHandler.Sums.{
  Sums, win_share, daily_pv, accumulate_pv, accumulate_uv, calculate, pv_share, win_rate_of,
}
use high_dimensional_flow_re.RequestHandler.Process.{
  merge_rate, RequestHandler, Ended, done, exited, price, process_pv, process_uv, process_psids,
  process_found, process,
}

-- The value that a computation has returned came from a value.
bind-eq-some :
    {A B : Type 0} (m : Option A) (k : A → Option B) (b : B)
    → (m >>= k) ≡ some b
    → (a : A) × (m ≡ some a) × (k a ≡ some b)
bind-eq-some none k b e = absurd (none-ne-some b e)
bind-eq-some (some a) k b e = (a, refl, e)

module _ (d : Numbers) where
  open d use {Double, lt, literal, zero_double, add, mul, of_nat}

  -- The sum of the visitors in what `Process` ends with.
  abbrev uv_sum_of : Sums d → Ended d → Double
  uv_sum_of s exited = s.uv_sum
  uv_sum_of s (done h) = h.sums.uv_sum

  accumulate_pv-uv_sum :
      (b : PvBidBitmap) (result : Result) (param : Param d) (qd : QueryData) (ctr : Double)
      (s s' : Sums d)
      → accumulate_pv d b result param qd ctr s ≡ some s'
      → s'.uv_sum ≡ s.uv_sum
  unfolding accumulate_pv
  accumulate_pv-uv_sum b result param qd ctr s s' e =
      let (share, e₁, e₂) = bind-eq-some (pv_share d param b result) _ s' e in
      let (rate, e₃, e₄) = bind-eq-some (win_rate_of d param b result) _ s' e₂ in
      ap (λ t. t.uv_sum) (sym (some-injective _ s' e₄))

  module _ (index : Index) (param : Param d) (qd : QueryData) (groups : List (List ℕ)) where
    process_pv-uv_sum :
        (b : Option PvBidBitmap) (state state' : List ℕ × Sums d)
        → process_pv d index param qd groups b state ≡ some state'
        → state'.1.uv_sum ≡ state.1.uv_sum
    unfolding process_pv
    process_pv-uv_sum none state state' e =
        ap (λ t. t.1.uv_sum) (sym (some-injective state state' e))
    process_pv-uv_sum (some b) (buf, s) state' e =
        let ((result, buf'), e₁, e₂) =
          bind-eq-some (target_count b.base groups (price qd) buf) _ state' e in
        let (ctr, e₃, e₄) = bind-eq-some (get_hourly_ctr d b qd.hours) _ state' e₂ in
        let (s', e₅, e₆) = bind-eq-some (accumulate_pv d b result param qd ctr s) _ state' e₄ in
        ap (λ t. t.1.uv_sum) (sym (some-injective (buf', s') state' e₆))
        ∙ accumulate_pv-uv_sum b result param qd ctr s s' e₅

    module _ (off : param.uv_use_delta ≡ false) where
      accumulate_uv-uv_sum :
          (b : UvBidBitmap) (result : Result) (s s' : Sums d)
          → accumulate_uv d b result param s ≡ some s'
          → s'.uv_sum ≡ s.uv_sum
      unfolding accumulate_uv
      accumulate_uv-uv_sum b result s s' e =
          let added = add s.pv_sum (mul (win_share d result b.base.size) (of_nat b.uv)) in
          let to_pv : accumulate_uv d b result param s ≡ some (record s { pv_sum = added }) =
            rw (accumulate_uv, off) refl in
          ap (λ t. t.uv_sum) (sym (some-injective (record s { pv_sum = added }) s' (sym to_pv ∙ e)))

      process_uv-uv_sum :
          (b : Option UvBidBitmap) (state state' : List ℕ × Sums d)
          → process_uv d index param qd groups b state ≡ some state'
          → state'.1.uv_sum ≡ state.1.uv_sum
      unfolding process_uv
      process_uv-uv_sum none state state' e =
          ap (λ t. t.1.uv_sum) (sym (some-injective state state' e))
      process_uv-uv_sum (some b) (buf, s) state' e =
          let ((result, buf'), e₁, e₂) =
            bind-eq-some (target_count b.base groups (price qd) buf) _ state' e in
          let (s', e₃, e₄) = bind-eq-some (accumulate_uv d b result param s) _ state' e₂ in
          ap (λ t. t.1.uv_sum) (sym (some-injective (buf', s') state' e₄))
          ∙ accumulate_uv-uv_sum b result s s' e₃

      process_psids-uv_sum :
          (psids : List (List ℕ)) (state state' : List ℕ × Sums d)
          → process_psids d index param qd groups psids state ≡ some state'
          → state'.1.uv_sum ≡ state.1.uv_sum
      unfolding process_psids
      process_psids-uv_sum [] state state' e =
          ap (λ t. t.1.uv_sum) (sym (some-injective state state' e))
      process_psids-uv_sum (psid ∷ psids) state state' e =
          let pv = process_pv d index param qd groups (lookup index.pv_map psid) state in
          let (middle, e₁, e₂) =
            bind-eq-some (pv >>= process_uv d index param qd groups (lookup index.uv_map psid)) _
              state' e in
          let (first, e₃, e₄) = bind-eq-some pv _ middle e₁ in
          process_psids-uv_sum psids middle state' e₂
          ∙ process_uv-uv_sum (lookup index.uv_map psid) first middle e₄
          ∙ process_pv-uv_sum (lookup index.pv_map psid) state first e₃

  module _ (write : Double → Double → Double → Double → Double → List ℕ) (query : List ℕ → ℤ)
      (index : Index) (param : Param d) (qd : QueryData) where
    calculate-uv_sum : (s : Sums d) → (calculate d param qd s).uv_sum ≡ s.uv_sum
    unfolding calculate
    calculate-uv_sum s = elim (Bool-cases (lt (literal 99 2) (daily_pv d s))) [
      | inl shown ↦ rw (calculate, shown) refl
      | inr hidden ↦ rw (calculate, hidden) refl
    ]

    process_found-uv_sum :
        (off : param.uv_use_delta ≡ false) (merge : Option UvMergeBitmap)
        (h after : RequestHandler d)
        → process_found d write query index param qd merge h ≡ some (done after)
        → after.sums.uv_sum ≡ h.sums.uv_sum
    process_found-uv_sum off none h after e = absurd (ground arith)
    process_found-uv_sum off (some b) h after e =
        let ((merged, sum, buf), e₁, e₂) =
          bind-eq-some (merge_counts b qd.psids h.compute_buf) _ (done after) e in
        let (state, e₃, e₄) =
          bind-eq-some
            (process_psids d index param qd h.targetings qd.psids
              (buf, record h.sums { uv_merge_rate = merge_rate d merged sum }))
            _ (done after) e₂ in
        ap (uv_sum_of h.sums) (sym (some-injective _ (done after) e₄))
        ∙ calculate-uv_sum state.1
        ∙ process_psids-uv_sum index param qd h.targetings off qd.psids _ state e₃

    -- With the delta function of visitors off, an answer of `Process` has counted no visitor: the
    -- sum from which it takes the daily visitors is 0, whatever bitmaps the ad positions have.
    pub process-uv_sum :
        (h after : RequestHandler d)
        → param.uv_use_delta ≡ false
        → process d write query index param qd h ≡ some (done after)
        → after.sums.uv_sum ≡ zero_double
    unfolding process
    process-uv_sum h after off e = process_found-uv_sum off index.uv_merge_map _ after e
