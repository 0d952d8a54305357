-- ===== src/Tests/Answers.antt =====
-- An index of one sample, from its lines to the answer on a query.
use high_dimensional_flow_re.Base.{
  ℕ, ◌<◌, ◌≤◌, ◌≡◌, ◌≢◌, refl, true, some, List, [], ◌∷◌, arith, length, Bool-cases, inl, inr,
}
use high_dimensional_flow_re.Base.Ints.{ℤ, pos, negsuc}
use high_dimensional_flow_re.Base.Text.{codes}
use high_dimensional_flow_re.Base.Decimal.{atoi, strtol, decimal, decimal_digits}
use high_dimensional_flow_re.Base.Maps.{put, same}
use high_dimensional_flow_re.StringExt.{split, split_from}
use high_dimensional_flow_re.TargetMap.{load, load_line, load_lines, get_size, query_online}
use high_dimensional_flow_re.Index.{Index}
use high_dimensional_flow_re.QueryParser.{QueryData}
use high_dimensional_flow_re.RequestHandler.Targeting.{
  push_index, push_group, encode_group, encode_targeting,
}
use high_dimensional_flow_re.RequestHandler.Process.{RequestHandler, done, process}
use high_dimensional_flow_re.RequestHandler.Whole.{IsRoom}
use high_dimensional_flow_re.Builder.{merge_samples, build_index}
use high_dimensional_flow_re.Builder.Answers.{conf_targets, visitor_samples, build_index-IsAnswered}
use high_dimensional_flow_re.Tests.Handler.{buffer-IsBuffer}
use high_dimensional_flow_re.Tests.Query.{numbers, plain_param}
use high_dimensional_flow_re.Tests.Process.{handler, write, asked}
use high_dimensional_flow_re.Tests.Build.{
  conf, sample_line, no_float, visitor_line, info_line, sample_line-IsSource, visitors-IsSampled,
}

-- The query for the target "male" at the ad position "A".
abbrev asked_male : QueryData
asked_male = record asked { targetings = (codes "male" ∷ []) ∷ []; psids = codes "A" ∷ [] }

-- Only "male" has a number, which is 0.
conf-known :
    (name : List ℕ) (n : ℕ)
    → query_online (conf_targets 1 1 no_float conf (visitor_line ∷ [])) name ≡ pos n
    → n < get_size (conf_targets 1 1 no_float conf (visitor_line ∷ []))
unfolding load load_lines load_line put split split_from query_online atoi strtol decimal
    decimal_digits
conf-known name n e = elim (Bool-cases (same (codes "male") name)) [
  | inl here ↦ let e' : pos 0 ≡ pos n = rw here at e in ground (arith, e')
  | inr other ↦ let e' : negsuc 0 ≡ pos n = rw other at e in absurd (ground (arith, e'))
]

male-encoded :
    encode_targeting
      (query_online (conf_targets 1 1 no_float conf (visitor_line ∷ [])))
      asked_male.targetings
    ≡ (0 ∷ []) ∷ []
unfolding load load_lines load_line put split split_from query_online atoi strtol decimal
    decimal_digits push_index push_group encode_group encode_targeting
male-encoded = refl

some_male :
    encode_targeting
      (query_online (conf_targets 1 1 no_float conf (visitor_line ∷ [])))
      asked_male.targetings
    ≢ []
some_male e = ground (arith, e, male-encoded)

abbrev male_query : List ℕ → ℤ
male_query = query_online (conf_targets 1 1 no_float conf (visitor_line ∷ []))

one_visitor : length (visitor_samples 1 1 no_float conf (visitor_line ∷ [])) ≤ 10
unfolding merge_samples split split_from
one_visitor = omega arith

build_index-IsAnswered_example :
    (ix : Index) × (after : RequestHandler numbers) × (build_index true 1 1 no_float
        (some conf)
        (some (sample_line ∷ []))
        (some (info_line ∷ []))
        (some (sample_line ∷ []))
        (some (info_line ∷ []))
        (some (visitor_line ∷ []))
      ≡ some (some ix))
    × (process numbers write male_query ix plain_param asked_male handler ≡ some (done after))
    × IsRoom after.compute_buf
build_index-IsAnswered_example =
    build_index-IsAnswered 1 1 no_float conf (visitor_line ∷ []) 10 (some (sample_line ∷ []))
      (some (info_line ∷ [])) (some (sample_line ∷ [])) (some (info_line ∷ [])) numbers write
      plain_param asked_male handler (λ field. omega arith) sample_line-IsSource
      sample_line-IsSource visitors-IsSampled one_visitor (omega arith) conf-known some_male
      (record { pv_short = omega arith; uv_short = omega arith; win_rate_short = omega arith })
      (buffer-IsBuffer.halves, buffer-IsBuffer.bytes)
