-- ===== src/Builder/Fields.antt =====
-- What src/builder.cc reads from a line fits the members of the bitmaps.
use high_dimensional_flow_re.Base.{
  ℕ, ◌≤◌, ◌<◌, ◌^◌, Option, none, some, List, [], ◌∷◌, arith, ltb, map, length, get_or, All,
  All-append, Bool-cases, Option-cases, inl, inr,
}
use high_dimensional_flow_re.Base.Ints.{ℤ, pos, negsuc}
use high_dimensional_flow_re.Base.Decimal.{strtol, low_bits}
use high_dimensional_flow_re.Base.Maps.{Map, find, insert_found, insert_new, same}
use high_dimensional_flow_re.StringExt.{split}
use high_dimensional_flow_re.StringExt.Fields.{IsText, field-IsText}
use high_dimensional_flow_re.TargetMap.{TargetMap}
use high_dimensional_flow_re.Builder.{
  PvInfo, UvInfo, Sample, read32, clamp_bid, parse_pv_info, parse_uv_info, parse_sample,
  parse_samples, read_infos,
}

low_bits64-lt : (z : ℤ) → low_bits 64 z < 2 ^ 64
low_bits64-lt (pos n) = omega arith
low_bits64-lt (negsuc n) = omega arith

low_bits32-lt : (z : ℤ) → low_bits 32 z < 2 ^ 32
low_bits32-lt (pos n) = omega arith
low_bits32-lt (negsuc n) = omega arith

clamp_bid-lt : (z : ℤ) → clamp_bid z < 2 ^ 16
clamp_bid-lt (pos n) = ground arith
clamp_bid-lt (negsuc n) = omega arith

All-map :
    (P : ℕ → Type 0) (f : List ℕ → ℕ) (fields : List (List ℕ))
    → ((field : List ℕ) → P (f field))
    → All P (map f fields)
All-map P f [] h = tt
All-map P f (field ∷ fields) h = (h field, All-map P f fields h)

-- Of what a line yields, if it does.
abbrev pub OnSome : {A : Type 0} → (A → Type 0) → Option A → Type 0
OnSome P none = Unit {0}
OnSome P (some a) = P a

pub record IsFitPv (info : PvInfo) : Type 0 where
  pub request_fits : info.request < 2 ^ 64
  pub pv_fits : info.pv < 2 ^ 64
  pub requests : All (λ w. w < 2 ^ 32) info.hourly_request
  pub pvs : All (λ w. w < 2 ^ 32) info.hourly_pv
  pub ctrs : All (λ w. w < 2 ^ 32) info.hourly_ctr

pub record IsFitUv (info : UvInfo) : Type 0 where
  pub request_fits : info.request < 2 ^ 64
  pub uv_fits : info.uv < 2 ^ 64

pub record IsFitSample (s : Sample) : Type 0 where
  pub name : IsText s.psid
  pub bid_fits : s.bid < 2 ^ 16

pub parse_pv_info-IsFitPv :
    (read_float : List ℕ → ℕ) (line : List ℕ)
    → ((field : List ℕ) → read_float field < 2 ^ 32)
    → OnSome IsFitPv (parse_pv_info read_float line)
unfolding parse_pv_info
parse_pv_info-IsFitPv read_float line floats =
    elim (Bool-cases (ltb (length (split line b'\t')) 7)) [
      | inl few ↦ rw few tt
      | inr whole ↦ rw whole (record {
        request_fits = low_bits64-lt (strtol (get_or (split line b'\t') 1 []));
        pv_fits = low_bits64-lt (strtol (get_or (split line b'\t') 2 []));
        requests = All-map (λ w. w < 2 ^ 32) read32 _ (λ field. low_bits32-lt (strtol field));
        pvs = All-map (λ w. w < 2 ^ 32) read32 _ (λ field. low_bits32-lt (strtol field));
        ctrs = All-map (λ w. w < 2 ^ 32) read_float _ floats;
      })
    ]

pub parse_uv_info-IsFitUv : (line : List ℕ) → OnSome IsFitUv (parse_uv_info line)
unfolding parse_uv_info
parse_uv_info-IsFitUv line = elim (Bool-cases (ltb (length (split line b'\t')) 3)) [
  | inl few ↦ rw few tt
  | inr whole ↦ rw whole (record {
    request_fits = low_bits64-lt (strtol (get_or (split line b'\t') 1 []));
    uv_fits = low_bits64-lt (strtol (get_or (split line b'\t') 2 []));
  })
]

parse_sample-IsFitSample :
    (m : TargetMap) (line : List ℕ) → IsText line → OnSome IsFitSample (parse_sample m line)
unfolding parse_sample
parse_sample-IsFitSample m line h = elim (Bool-cases (ltb (length (split line b'\t')) 9)) [
  | inl few ↦ rw few tt
  | inr whole ↦ rw whole (record {
    name = field-IsText line b'\t' 2 h;
    bid_fits = clamp_bid-lt (strtol (get_or (split line b'\t') 7 []));
  })
]

-- The samples of the lines are not more than the lines.
pub parse_samples-IsFitSample :
    (m : TargetMap) (lines : List (List ℕ))
    → All IsText lines
    → All IsFitSample (parse_samples m lines) × (length (parse_samples m lines) ≤ length lines)
unfolding parse_samples
parse_samples-IsFitSample m [] h = (tt, omega arith)
parse_samples-IsFitSample m (line ∷ lines) h =
    let (fit, few) = parse_samples-IsFitSample m lines h.1 in
    let one = parse_sample-IsFitSample m line h.0 in
    elim (Option-cases (parse_sample m line)) [
      | inl e ↦ rw (parse_samples, e) (fit, omega (arith, few))
      | inr (s, e) ↦ rw (parse_samples, e) ((rw e at one, fit), omega (arith, few))
    ]

module _ {Info : Type 0} (IsFit : Info → Type 0) where
  abbrev pub AllFit : Map Info → Type 0
  AllFit infos = All (λ (entry : List ℕ × Info). IsFit entry.1) infos

  insert_found-AllFit :
      (infos : Map Info) (psid : List ℕ) (info : Info) (old : Option Info)
      → AllFit infos
      → IsFit info
      → AllFit (insert_found infos psid info old)
  insert_found-AllFit infos psid info none h fit =
      All-append (λ (entry : List ℕ × Info). IsFit entry.1) infos ((psid, info) ∷ []) h (fit, tt)
  insert_found-AllFit infos psid info (some old) h fit = h

  pub read_infos-AllFit :
      (parse : List ℕ → Option Info) (psid_of : Info → List ℕ) (infos : Map Info)
      (lines : List (List ℕ))
      → ((line : List ℕ) → OnSome IsFit (parse line))
      → AllFit infos
      → AllFit (read_infos parse psid_of infos lines)
  unfolding read_infos
  read_infos-AllFit parse psid_of infos [] fits h = h
  read_infos-AllFit parse psid_of infos (line ∷ lines) fits h =
      let one = fits line in
      elim (Option-cases (parse line)) [
        | inl e ↦ rw (read_infos, e) (read_infos-AllFit parse psid_of infos lines fits h)
        | inr (info, e) ↦
            rw (read_infos, e)
              (read_infos-AllFit parse psid_of (insert_new infos (psid_of info) info) lines fits (
                insert_found-AllFit infos (psid_of info) info (find infos (psid_of info)) h
                  (rw e at one)))
      ]

  -- What is found fits.
  pub find-AllFit :
      (infos : Map Info) (psid : List ℕ) → AllFit infos → OnSome IsFit (find infos psid)
  find-AllFit [] psid h = tt
  find-AllFit ((key, info) ∷ infos) psid h = elim (Bool-cases (same key psid)) [
    | inl here ↦ rw (OnSome, here) h.0
    | inr other ↦ rw (OnSome, other) (find-AllFit infos psid h.1)
  ]
