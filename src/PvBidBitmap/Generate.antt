-- ===== src/PvBidBitmap/Generate.antt =====
-- `Generate` of src/pv_bid_bitmap.cc, and the way of its result to a file and back.
use high_dimensional_flow_re.Base.{
  ℕ, ◌^◌, ◌<◌, ◌≡◌, refl, ap, Bool, true, false, ◌&&◌, some, List, arith, ◌==◌, length, All,
  all_lists_below, Bool-cases, inl, inr, ◌∙◌,
}
use high_dimensional_flow_re.Base.Bytes.{IsByte}
use high_dimensional_flow_re.Bitmap.Generate.{header_for}
use high_dimensional_flow_re.BidBitmap.{BidBitmap}
use high_dimensional_flow_re.BidBitmap
use high_dimensional_flow_re.BidBitmap.Generate.{generate-IsGeneratedBids}
use high_dimensional_flow_re.BidBitmap.Storable.{IsInput}
use high_dimensional_flow_re.PvBidBitmap.{PvBidBitmap, generate, clear, is_valid, keep_members}
use high_dimensional_flow_re.PvBidBitmap.Files.{IsStorable, IsHourly}

-- When `Generate` returns true, the object has the members given, and all of it can be stored. There
-- are samples and targets, the bids have 16 bits, no size wraps, and the members fit their types and have the numbers of 24 hours.
pub generate-IsStorable :
    (psid : List ℕ) (request pv : ℕ) (hourly_request hourly_pv hourly_ctr : List ℕ)
    (cols : List (List ℕ)) (bids : List ℕ) (height : ℕ) (b b' : PvBidBitmap)
    → IsHourly hourly_request
    → IsHourly hourly_pv
    → IsHourly hourly_ctr
    → IsInput cols bids height
    → length psid < 2 ^ 32
    → All IsByte psid
    → request < 2 ^ 64
    → pv < 2 ^ 64
    → generate psid request pv hourly_request hourly_pv hourly_ctr cols bids height b
      ≡ some (true, b')
    → IsStorable b' × (b'.psid ≡ psid) × (b'.request ≡ request) × (b'.pv ≡ pv)
unfolding generate
generate-IsStorable psid request pv hourly_request hourly_pv hourly_ctr cols bids height b b'
      requests pvs ctrs i short bytes request_fits pv_fits e =
    let g = generate-IsGeneratedBids cols bids height (clear b).base i.few i.small in
    let e' = rw g.returns at e in
    elim (Bool-cases (all_lists_below height cols && length bids == length cols)) [
      | inr bad ↦ absurd (ground arith)
      | inl good ↦
          let stored =
            BidBitmap.Storable.generate-IsStorable cols bids height (clear b).base g.made i
              (g.returns ∙ ap (λ ok. some (ok, g.made)) good) in
          let same : record {
            base = g.made;
            psid = psid;
            request = request;
            pv = pv;
            hourly_request = hourly_request;
            hourly_pv = hourly_pv;
            hourly_ctr = hourly_ctr;
          }
              ≡ b' =
            ground arith in
          rw (← same) (
            record {
              base = stored;
              psid_short = short;
              psid_bytes = bytes;
              request_fits = request_fits;
              pv_fits = pv_fits;
              requests = requests;
              pvs = pvs;
              ctrs = ctrs;
            },
            refl,
            refl,
            refl,
          )
    ]

kept_base :
    (made cleared : PvBidBitmap) (ok : Bool) (base : BidBitmap)
    → (keep_members made cleared (ok, base)).1.base.header ≡ base.header
kept_base made cleared true base = refl
kept_base made cleared false base = refl

-- `Generate` returns, and what it leaves when it returns true can be stored and has a row for each
-- target: it tests that there are the numbers of 24 hours.
pub generate-OnTrue :
    (psid : List ℕ) (request pv : ℕ) (hourly_request hourly_pv hourly_ctr : List ℕ)
    (cols : List (List ℕ)) (bids : List ℕ) (height : ℕ) (b : PvBidBitmap)
    → All (λ w. w < 2 ^ 32) hourly_request
    → All (λ w. w < 2 ^ 32) hourly_pv
    → All (λ w. w < 2 ^ 32) hourly_ctr
    → IsInput cols bids height
    → length psid < 2 ^ 32
    → All IsByte psid
    → request < 2 ^ 64
    → pv < 2 ^ 64
    → (done : Bool) × (b' : PvBidBitmap) × (generate psid request pv hourly_request hourly_pv
          hourly_ctr cols bids height b
        ≡ some (done, b'))
      × (done ≡ true
          → IsStorable b' × (b'.psid ≡ psid) × (b'.base.header ≡ header_for (length cols) height))
unfolding generate
generate-OnTrue psid request pv hourly_request hourly_pv hourly_ctr cols bids height b requests pvs
      ctrs i short bytes request_fits pv_fits =
    let made = record (clear b) {
      psid = psid;
      request = request;
      pv = pv;
      hourly_request = hourly_request;
      hourly_pv = hourly_pv;
      hourly_ctr = hourly_ctr;
    } in
    let g = generate-IsGeneratedBids cols bids height (clear b).base i.few i.small in
    let ok = all_lists_below height cols && length bids == length cols in
    let kept = keep_members made (clear b) (ok, g.made) in
    elim (Bool-cases (is_valid made)) [
      | inr bad ↦ (false, clear b, rw bad refl, λ e. absurd (ground (arith, e)))
      | inl valid ↦
          let returns : generate psid request pv hourly_request hourly_pv hourly_ctr cols bids
                height b
              ≡ some kept =
            rw (generate, valid, g.returns) refl in
          (
            kept.0,
            kept.1,
            returns,
            λ e.
                let (s, same, kept_request, kept_number) =
                  generate-IsStorable psid request pv hourly_request hourly_pv hourly_ctr cols bids
                    height b kept.1 (record { whole_day = ground (arith, valid); fits = requests })
                    (record { whole_day = ground (arith, valid); fits = pvs })
                    (record { whole_day = ground (arith, valid); fits = ctrs }) i short bytes
                    request_fits pv_fits (returns ∙ ap (λ done. some (done, kept.1)) e) in
                (s, same, kept_base made (clear b) ok g.made ∙ g.head),
          )
    ]
