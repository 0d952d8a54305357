-- ===== src/RequestHandler/Total.antt =====
-- `Process` of src/request_handler.cc comes to an answer.
use high_dimensional_flow_re.Base.{
  ℕ, ◌+◌, ◌*◌, ◌≤◌, ◌<◌, ◌^◌, ◌≡◌, refl, ap, ◌∙◌, Bool, Option, none, some, List, [], ◌∷◌, arith,
  ltb, ◌>>=◌, u32, length, get_or, get_elem?-eq-get_or, Bool-cases, inl, inr,
}
use high_dimensional_flow_re.Base.Ints.{ℤ}
use high_dimensional_flow_re.BidBitmap.{Result}
use high_dimensional_flow_re.PvBidBitmap.{PvBidBitmap, hours_per_day}
use high_dimensional_flow_re.UvBidBitmap.{UvBidBitmap}
use high_dimensional_flow_re.PvBidBitmap.Rates.{get_rate, sum_hours, get_hourly_ctr}
use high_dimensional_flow_re.UvBidBitmap.Rates as UvRates
use high_dimensional_flow_re.UvMergeBitmap.{UvMergeBitmap}
use high_dimensional_flow_re.UvMergeBitmap.Merge.{IsMerged}
use high_dimensional_flow_re.Index.{Index, lookup}
use high_dimensional_flow_re.QueryParser.{QueryData}
use high_dimensional_flow_re.Numbers.{Numbers}
use high_dimensional_flow_re.StepFunction.Total.{get_value-total}
use high_dimensional_flow_re.Param.{Param}
use high_dimensional_flow_re.RequestHandler.{compute_buffer_size}
use high_dimensional_flow_re.RequestHandler.Targeting.{encode_targeting}
use high_dimensional_flow_re.RequestHandler.Sums.{
  Sums, pv_share, win_rate_of, accumulate_pv, accumulate_uv,
}
use high_dimensional_flow_re.RequestHandler.Process.{RequestHandler, done, price, process}
use high_dimensional_flow_re.RequestHandler.Whole.{
  IsServed, IsRoom, answer, answer_pv, answer_uv, answer_psids, answered, merged_sums, process_lem,
}

-- There is a result.
abbrev pub IsDefined : {A : Type 0} → Option A → Type 0
IsDefined {A} o = (a : A) × (o ≡ some a)

bind-IsDefined :
    {A B : Type 0} (o : Option A) (k : A → Option B)
    → IsDefined o
    → ((a : A) → IsDefined (k a))
    → IsDefined (o >>= k)
bind-IsDefined o k (a, e) h = let (b, e') = h a in (b, rw e e')

-- The numbers of the hours are there for each hour of the day.
pub record HasHours (b : PvBidBitmap) : Type 0 where
  pub pvs : length b.hourly_pv ≡ hours_per_day
  pub ctrs : length b.hourly_ctr ≡ hours_per_day

module _ (d : Numbers) where
  -- The step functions have fewer splits than an `int` counts.
  pub record IsShort (param : Param d) : Type 0 where
    pub pv_short : length param.pv_step_function.splits < 2 ^ 31
    pub uv_short : length param.uv_step_function.splits < 2 ^ 31
    pub win_rate_short : length param.win_rate_step_function.splits < 2 ^ 31

  sum_hours-IsDefined :
      (b : PvBidBitmap) (hours : List ℕ) (views : ℕ) (clicks : d.Double)
      → HasHours b
      → IsDefined (sum_hours d b hours views clicks)
  unfolding sum_hours
  sum_hours-IsDefined b [] views clicks h = ((views, clicks), refl)
  sum_hours-IsDefined b (hour ∷ hours) views clicks h = elim (Bool-cases (ltb hour hours_per_day)) [
    | inr late ↦
        let (r, e) = sum_hours-IsDefined b hours views clicks h in (r, rw (sum_hours, late) e)
    | inl early ↦
        let pv = get_elem?-eq-get_or b.hourly_pv hour 0 (ground (arith, early, h.pvs)) in
        let ctr = get_elem?-eq-get_or b.hourly_ctr hour 0 (ground (arith, early, h.ctrs)) in
        let n = get_or b.hourly_pv hour 0 in
        let clicks' = d.add clicks (d.float_product n (get_or b.hourly_ctr hour 0)) in
        let (r, e) = sum_hours-IsDefined b hours (u32 (views + n)) clicks' h in
        (r, rw (sum_hours, early, pv, ctr) e)
  ]

  get_hourly_ctr-IsDefined :
      (b : PvBidBitmap) (hours : List ℕ) → HasHours b → IsDefined (get_hourly_ctr d b hours)
  unfolding get_hourly_ctr
  get_hourly_ctr-IsDefined b hours h =
      bind-IsDefined (sum_hours d b hours 0 d.zero_double) _
        (sum_hours-IsDefined b hours 0 d.zero_double h) (λ r. (_, refl))

  module _ (param : Param d) (short : IsShort param) where
    pv_share-IsDefined : (b : PvBidBitmap) (result : Result) → IsDefined (pv_share d param b result)
    unfolding pv_share
    pv_share-IsDefined b result = elim (Bool-cases param.pv_use_delta) [
      | inl delta ↦
          let (v, e) =
            get_value-total d.doubles (get_rate d b) param.pv_step_function short.pv_short in
          rw (delta, e) (_, refl)
      | inr plain ↦ rw plain (_, refl)
    ]

    win_rate_of-IsDefined :
        (b : PvBidBitmap) (result : Result) → IsDefined (win_rate_of d param b result)
    unfolding win_rate_of
    win_rate_of-IsDefined b result = elim (Bool-cases param.win_rate_use_delta) [
      | inl delta ↦
          let (v, e) =
            get_value-total d.doubles (get_rate d b) param.win_rate_step_function
              short.win_rate_short in
          rw (delta, e) (_, refl)
      | inr plain ↦ rw plain (_, refl)
    ]

    accumulate_pv-IsDefined :
        (b : PvBidBitmap) (result : Result) (qd : QueryData) (ctr : d.Double) (s : Sums d)
        → IsDefined (accumulate_pv d b result param qd ctr s)
    unfolding accumulate_pv
    accumulate_pv-IsDefined b result qd ctr s =
        bind-IsDefined (pv_share d param b result) _ (pv_share-IsDefined b result) (λ share.
          bind-IsDefined (win_rate_of d param b result) _ (win_rate_of-IsDefined b result)
            (λ rate. (_, refl)))

    accumulate_uv-IsDefined :
        (b : UvBidBitmap) (result : Result) (s : Sums d)
        → IsDefined (accumulate_uv d b result param s)
    unfolding accumulate_uv
    accumulate_uv-IsDefined b result s = elim (Bool-cases param.uv_use_delta) [
      | inl delta ↦
          let (v, e) =
            get_value-total d.doubles (UvRates.get_rate d b) param.uv_step_function
              short.uv_short in
          rw (delta, e) (_, refl)
      | inr plain ↦ rw plain (_, refl)
    ]

    module _ (index : Index) (qd : QueryData) (groups : List (List ℕ))
        (hours : (psid : List ℕ) (b : PvBidBitmap)
          → lookup index.pv_map psid ≡ some b
          → HasHours b) where
      answer_pv-IsDefined :
          (o : Option PvBidBitmap) (s : Sums d)
          → ((b : PvBidBitmap) → o ≡ some b → HasHours b)
          → IsDefined (answer_pv d index param qd groups o s)
      answer_pv-IsDefined none s h = (s, refl)
      answer_pv-IsDefined (some b) s h =
          bind-IsDefined (get_hourly_ctr d b qd.hours) _
            (get_hourly_ctr-IsDefined b qd.hours (h b refl))
            (λ ctr. accumulate_pv-IsDefined b (answer b.base groups (price qd)) qd ctr s)

      answer_uv-IsDefined :
          (o : Option UvBidBitmap) (s : Sums d) → IsDefined (answer_uv d index param qd groups o s)
      answer_uv-IsDefined none s = (s, refl)
      answer_uv-IsDefined (some b) s = accumulate_uv-IsDefined b (answer b.base groups (price qd)) s

      answer_psids-IsDefined :
          (psids : List (List ℕ)) (s : Sums d)
          → IsDefined (answer_psids d index param qd groups psids s)
      answer_psids-IsDefined [] s = (s, refl)
      answer_psids-IsDefined (psid ∷ psids) s =
          bind-IsDefined
            (answer_pv d index param qd groups (lookup index.pv_map psid) s
              >>= answer_uv d index param qd groups (lookup index.uv_map psid))
            _
            (bind-IsDefined (answer_pv d index param qd groups (lookup index.pv_map psid) s) _
              (answer_pv-IsDefined (lookup index.pv_map psid) s (hours psid))
              (answer_uv-IsDefined (lookup index.uv_map psid)))
            (answer_psids-IsDefined psids)

-- `Process` comes to an answer: with the bitmap of visitors that `Generate` made of the samples, other
-- bitmaps that answer the groups and fit the compute buffer, numbers for the 24 hours of each bitmap
-- of page views, step functions of fewer than 2^31 splits, and a compute buffer of its full length.
pub process-IsAnswered :
    (d : Numbers) (write : d.Double → d.Double → d.Double → d.Double → d.Double → List ℕ)
    (query : List ℕ → ℤ) (index : Index) (param : Param d) (qd : QueryData)
    {samples : List (List (List ℕ))} {result : Option (Bool × UvMergeBitmap)}
    (m : IsMerged samples result)
    → index.uv_merge_map ≡ some m.made
    → 8 * m.made.width < 2 ^ 31
    → m.made.width ≤ compute_buffer_size
    → ((psid : List ℕ) (b : PvBidBitmap)
        → lookup index.pv_map psid ≡ some b
        → IsServed (encode_targeting query qd.targetings) b.base × HasHours b)
    → ((psid : List ℕ) (b : UvBidBitmap)
        → lookup index.uv_map psid ≡ some b
        → IsServed (encode_targeting query qd.targetings) b.base)
    → IsShort d param
    → (h : RequestHandler d) → IsRoom h.compute_buf
    → (after : RequestHandler d) × (process d write query index param qd h ≡ some (done after))
      × IsRoom after.compute_buf
process-IsAnswered d write query index param qd {samples} m found narrow fits pv_served uv_served
      short h room =
    let groups = encode_targeting query qd.targetings in
    let (out, e, room') =
      process_lem d write query index param qd m found narrow fits
        (λ psid b there. (pv_served psid b there).0) uv_served h room in
    let (s, e') =
      answer_psids-IsDefined d param short index qd groups
        (λ psid b there. (pv_served psid b there).1) qd.psids
        (merged_sums d write query index param qd samples) in
    (
      answered d write param qd groups out s,
      e ∙ ap (λ o. o >>= λ t. some (done (answered d write param qd groups out t))) e',
      room',
    )
