-- ===== src/Tests/Process.antt =====
-- The theorems on the answers of the service at a small index.
use mathlib.Core.Option.{some-injective, none-ne-some}
use high_dimensional_flow_re.Base.{
  ℕ, ◌*◌, ◌≡◌, refl, ap, sym, ◌∙◌, false, none, some, List, [], ◌∷◌, arith, ltb, inl, inr,
  Bool-cases, ◌>>=◌,
}
use high_dimensional_flow_re.Base.Ints.{pos}
use high_dimensional_flow_re.Base.Maps.{same, find}
use high_dimensional_flow_re.Base.OrElse.{value_or}
use high_dimensional_flow_re.PvBidBitmap.{PvBidBitmap}
use high_dimensional_flow_re.UvBidBitmap.{UvBidBitmap}
use high_dimensional_flow_re.PvBidBitmap.Rates.{sum_hours, get_hourly_ctr}
use high_dimensional_flow_re.UvMergeBitmap.Merge.{generate-IsMerged}
use high_dimensional_flow_re.Index.{Index, lookup, value_of}
use high_dimensional_flow_re.QueryParser.{QueryData}
use high_dimensional_flow_re.RequestHandler.Targeting.{encode_targeting, encode_targeting-IsQuery}
use high_dimensional_flow_re.RequestHandler.Sums.{
  Sums, zero_sums, calculate, accumulate_pv, accumulate_uv, pv_share, win_rate_of,
}
use high_dimensional_flow_re.RequestHandler.Process.{RequestHandler, done, process}
use high_dimensional_flow_re.RequestHandler.Clamps.{calculate-within}
use high_dimensional_flow_re.RequestHandler.Visitors.{process-uv_sum}
use high_dimensional_flow_re.RequestHandler.Total.{HasHours}
use high_dimensional_flow_re.RequestHandler.Whole.{
  IsServed, answer_psids, answered, merged_sums, process_lem,
}
use high_dimensional_flow_re.Tests.Bitmaps.{two_rows-IsValid}
use high_dimensional_flow_re.Tests.Handler.{
  priced_rows, priced_rows-IsPriced, buffer, buffer-IsBuffer,
}
use high_dimensional_flow_re.Tests.Merge.{
  merged, merged_width, two_visitors, two_visitors-IsSampled, empty_merge, whole_numbers-IsOrder,
  whole_numbers-irreflexive,
}
use high_dimensional_flow_re.Tests.Service.{query, named_groups, query_rows, encoded}
use high_dimensional_flow_re.Tests.Query.{numbers, plain_param}
use high_dimensional_flow_re.Tests.Files.{pv_rows, uv_rows}

abbrev pub asked : QueryData
asked = record {
  price = pos 100;
  bid_type = pos 0;
  advert_type = pos 1;
  platform = pos 0;
  hours = 0 ∷ 23 ∷ [];
  targetings = named_groups;
  psids = (80 ∷ []) ∷ (81 ∷ []) ∷ [];
}

abbrev some_sums : Sums numbers
some_sums = record (zero_sums numbers) { pv_sum = 70; uv_sum = 700; uv_merge_rate = 1 }

calculate-within_example :
    let after = calculate numbers plain_param asked some_sums in
    (ltb 1 after.win_rate ≡ false) × (ltb after.uv (after.pv * 0) ≡ false)
calculate-within_example =
    calculate-within numbers whole_numbers-IsOrder whole_numbers-irreflexive plain_param asked
      some_sums

abbrev pub index : Index
index = record {
  pv_map = ((80 ∷ []), some pv_rows) ∷ [];
  uv_map = ((80 ∷ []), some uv_rows) ∷ [];
  uv_merge_map = some merged;
}

abbrev pub groups : List (List ℕ)
groups = encode_targeting query asked.targetings

priced_rows-IsServed : IsServed groups priced_rows
priced_rows-IsServed = record {
  valid = two_rows-IsValid;
  priced = priced_rows-IsPriced;
  query =
      encode_targeting-IsQuery query priced_rows named_groups query_rows
        (inl (λ e. ground (arith, encoded, e)));
  row_fits = omega arith;
}

-- A map of one entry.
only_entry :
    {B : Type 0} (key psid : List ℕ) (b b' : B)
    → lookup ((key, some b) ∷ []) psid ≡ some b'
    → b ≡ b'
only_entry key psid b b' e = elim (Bool-cases (same key psid)) [
  | inl here ↦
      let found : find ((key, some b) ∷ []) psid ≡ some (some b) = rw (find, here) refl in
      some-injective b b' (sym (ap value_of found) ∙ e)
  | inr away ↦
      let missing : find ((key, some b) ∷ []) psid ≡ none = rw (find, away) refl in
      absurd (none-ne-some b' (sym (ap value_of missing) ∙ e))
]

pub pv-IsServed :
    (psid : List ℕ) (b : PvBidBitmap) → lookup index.pv_map psid ≡ some b → IsServed groups b.base
pv-IsServed psid b e = rw (← only_entry (80 ∷ []) psid pv_rows b e) priced_rows-IsServed

pub pv-HasHours : (psid : List ℕ) (b : PvBidBitmap) → lookup index.pv_map psid ≡ some b → HasHours b
pv-HasHours psid b e =
    rw (← only_entry (80 ∷ []) psid pv_rows b e) (record { pvs = refl; ctrs = refl })

pub uv-IsServed :
    (psid : List ℕ) (b : UvBidBitmap) → lookup index.uv_map psid ≡ some b → IsServed groups b.base
uv-IsServed psid b e = rw (← only_entry (80 ∷ []) psid uv_rows b e) priced_rows-IsServed

abbrev pub handler : RequestHandler numbers
handler = record {
  request_buf = [];
  compute_buf = buffer;
  targetings = (5 ∷ []) ∷ [];
  json_str = 1 ∷ [];
  sums = some_sums;
}

abbrev pub write : ℕ → ℕ → ℕ → ℕ → ℕ → List ℕ
write a b c e f = a ∷ b ∷ c ∷ e ∷ f ∷ []

abbrev first_out : List ℕ
first_out =
    (process_lem numbers write query index plain_param asked
      (generate-IsMerged two_visitors empty_merge two_visitors-IsSampled) refl
      (omega (arith, merged_width)) (omega (arith, merged_width)) pv-IsServed uv-IsServed handler
      (buffer-IsBuffer.halves, buffer-IsBuffer.bytes)).0

abbrev last_sums : Sums numbers
last_sums = value_or some_sums (
    answer_psids numbers index plain_param asked groups asked.psids
      (merged_sums numbers write query index plain_param asked two_visitors))

summed :
    answer_psids numbers index plain_param asked groups asked.psids
      (merged_sums numbers write query index plain_param asked two_visitors)
    ≡ some last_sums
unfolding accumulate_pv accumulate_uv pv_share win_rate_of sum_hours get_hourly_ctr
summed = refl

abbrev last_handler : RequestHandler numbers
last_handler = answered numbers write plain_param asked groups first_out last_sums

ended : process numbers write query index plain_param asked handler ≡ some (done last_handler)
ended =
    (process_lem numbers write query index plain_param asked
      (generate-IsMerged two_visitors empty_merge two_visitors-IsSampled) refl
      (omega (arith, merged_width)) (omega (arith, merged_width)) pv-IsServed uv-IsServed handler
      (buffer-IsBuffer.halves, buffer-IsBuffer.bytes)).1
    ∙ ap (λ o. o >>= λ s. some (done (answered numbers write plain_param asked groups first_out s)))
        summed

process-uv_sum_example : last_handler.sums.uv_sum ≡ 0
process-uv_sum_example =
    process-uv_sum numbers write query index plain_param asked handler last_handler refl ended
