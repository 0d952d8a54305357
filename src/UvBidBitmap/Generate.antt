-- ===== src/UvBidBitmap/Generate.antt =====
-- `Generate` of src/uv_bid_bitmap.cc, and the way of its result to a file and back.
use high_dimensional_flow_re.Base.{
  ℕ, ◌^◌, ◌<◌, ◌≡◌, refl, ap, Bool, true, false, if◌then◌else◌, ◌&&◌, some, List, arith, ◌==◌,
  length, All, all_lists_below, Bool-cases, inl, inr, ◌∙◌,
}
use high_dimensional_flow_re.Base.Bytes.{IsByte}
use high_dimensional_flow_re.Bitmap.Generate.{header_for}
use high_dimensional_flow_re.BidBitmap
use high_dimensional_flow_re.BidBitmap.Generate.{generate-IsGeneratedBids}
use high_dimensional_flow_re.BidBitmap.Storable.{IsInput}
use high_dimensional_flow_re.UvBidBitmap.{UvBidBitmap, generate, clear}
use high_dimensional_flow_re.UvBidBitmap.Files.{IsStorable}

-- When `Generate` returns true, the object has the members given, and all of it can be stored. There
-- are samples and targets, the bids have 16 bits, no size wraps, and the members fit their types.
pub generate-IsStorable :
    (psid : List ℕ) (request uv : ℕ) (cols : List (List ℕ)) (bids : List ℕ) (height : ℕ)
    (b b' : UvBidBitmap)
    → IsInput cols bids height
    → length psid < 2 ^ 32
    → All IsByte psid
    → request < 2 ^ 64
    → uv < 2 ^ 64
    → generate psid request uv cols bids height b ≡ some (true, b')
    → IsStorable b' × (b'.psid ≡ psid) × (b'.request ≡ request) × (b'.uv ≡ uv)
unfolding generate
generate-IsStorable psid request uv cols bids height b b' i short bytes request_fits uv_fits e =
    let g = generate-IsGeneratedBids cols bids height (clear b).base i.few i.small in
    let e' = rw g.returns at e in
    elim (Bool-cases (all_lists_below height cols && length bids == length cols)) [
      | inr bad ↦ absurd (ground arith)
      | inl good ↦
          let stored =
            BidBitmap.Storable.generate-IsStorable cols bids height (clear b).base g.made i
              (g.returns ∙ ap (λ ok. some (ok, g.made)) good) in
          let same : record { base = g.made; psid = psid; request = request; uv = uv } ≡ b' =
            ground arith in
          rw (← same) (
            record {
              base = stored;
              psid_short = short;
              psid_bytes = bytes;
              request_fits = request_fits;
              uv_fits = uv_fits;
            },
            refl,
            refl,
            refl,
          )
    ]

abbrev kept_members : List ℕ → ℕ → ℕ → UvBidBitmap → Bool → Bool × UvBidBitmap
kept_members psid request uv made ok =
    if ok then (true, record made { psid = psid; request = request; uv = uv }) else (false, made)

kept_base :
    (psid : List ℕ) (request uv : ℕ) (made : UvBidBitmap) (ok : Bool)
    → (kept_members psid request uv made ok).1.base.header ≡ made.base.header
kept_base psid request uv made true = refl
kept_base psid request uv made false = refl

-- `Generate` returns, and what it leaves when it returns true can be stored and has a row for each
-- target.
pub generate-OnTrue :
    (psid : List ℕ) (request uv : ℕ) (cols : List (List ℕ)) (bids : List ℕ) (height : ℕ)
    (b : UvBidBitmap)
    → IsInput cols bids height
    → length psid < 2 ^ 32
    → All IsByte psid
    → request < 2 ^ 64
    → uv < 2 ^ 64
    → (done : Bool) × (b' : UvBidBitmap) × (generate psid request uv cols bids height b
        ≡ some (done, b'))
      × (done ≡ true
          → IsStorable b' × (b'.psid ≡ psid) × (b'.base.header ≡ header_for (length cols) height))
unfolding generate
generate-OnTrue psid request uv cols bids height b i short bytes request_fits uv_fits =
    let g = generate-IsGeneratedBids cols bids height (clear b).base i.few i.small in
    let ok = all_lists_below height cols && length bids == length cols in
    let made = record (clear b) { base = g.made } in
    let kept = kept_members psid request uv made ok in
    let returns : generate psid request uv cols bids height b ≡ some kept =
      rw (generate, g.returns) refl in
    (
      kept.0,
      kept.1,
      returns,
      λ e.
          let (s, same, kept_request, kept_number) =
            generate-IsStorable psid request uv cols bids height b kept.1 i short bytes request_fits
              uv_fits (returns ∙ ap (λ done. some (done, kept.1)) e) in
          (s, same, kept_base psid request uv made ok ∙ g.head),
    )
