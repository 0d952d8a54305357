-- ===== src/Builder/Answers.antt =====
-- An index that src/builder.cc makes answers the queries of src/request_handler.cc.
use high_dimensional_flow_re.Base.{
  ℕ, ◌≤◌, ◌<◌, ◌^◌, ◌≡◌, ◌≢◌, true, Option, some, List, [], arith, length, inl,
}
use high_dimensional_flow_re.Base.Ints.{ℤ, pos}
use high_dimensional_flow_re.Bitmap.{row_width}
use high_dimensional_flow_re.BidBitmap.{BidBitmap}
use high_dimensional_flow_re.BidBitmap
use high_dimensional_flow_re.UvMergeBitmap.Merge.{IsSampled}
use high_dimensional_flow_re.Index.{Index}
use high_dimensional_flow_re.Numbers.{Numbers}
use high_dimensional_flow_re.Param.{Param}
use high_dimensional_flow_re.QueryParser.{QueryData}
use high_dimensional_flow_re.TargetMap.{TargetMap, get_size, query_online}
use high_dimensional_flow_re.RequestHandler.{compute_buffer_size}
use high_dimensional_flow_re.RequestHandler.Targeting.{encode_targeting, encode_targeting-IsQuery}
use high_dimensional_flow_re.RequestHandler.Process.{RequestHandler, done, process}
use high_dimensional_flow_re.RequestHandler.Whole.{IsServed, IsRoom}
use high_dimensional_flow_re.RequestHandler.Total.{IsShort, process-IsAnswered}
use high_dimensional_flow_re.Builder.{build_index}
use high_dimensional_flow_re.Builder.Fields.{OnSome}
use high_dimensional_flow_re.Builder.Made.{IsSource, IsSized, row_width_mono}
use high_dimensional_flow_re.Builder.Whole.{targets_of, merged_of, build_index-AllStorable}

-- A bitmap with a row for each target answers the groups of targets.
module _ (query : List ℕ → ℤ) (targets most : ℕ)
    (known : (name : List ℕ) (n : ℕ) → query name ≡ pos n → n < targets)
    (fits : row_width most ≤ compute_buffer_size) where
  IsSized-IsServed :
      (targetings : List (List (List ℕ))) (b : BidBitmap)
      → encode_targeting query targetings ≢ []
      → BidBitmap.Files.IsStorable b
      → IsSized targets most b
      → IsServed (encode_targeting query targetings) b
  IsSized-IsServed targetings b some_group stored sized = record {
    valid = stored.valid;
    priced = record {
      room = omega (arith, sized.narrow, fits);
      holds = sized.holds;
      one_each = stored.one_each;
      short = stored.short;
    };
    query =
        encode_targeting-IsQuery query b targetings (λ name n e. rw (sized.height) (known name n e))
          (inl some_group);
    row_fits = omega (arith, sized.narrow, fits);
  }

module _ (procs threads : ℕ) (read_float : List ℕ → ℕ) (conf visitors : List (List ℕ)) where
  -- The targets of the configuration, and the samples of the file of visitors.
  abbrev pub conf_targets : TargetMap
  conf_targets = targets_of true procs threads read_float (some conf)

  abbrev pub visitor_samples : List (List (List ℕ))
  visitor_samples = merged_of true procs threads read_float conf_targets visitors

  -- With the index that `main` of the builder makes, where memory is found, and the targets of the
  -- same configuration, `Process` comes to an answer on every query of which a group of known
  -- targets is left. The file of visitors opens; where a file of samples opens, the configuration
  -- names a target, and the lines are bytes, each of a length of 32 bits; samples and visitors are
  -- so few that no size wraps and that a row fits the compute buffer. The configuration numbers
  -- the targets below their count; a `float` has four bytes; the step functions have fewer than
  -- 2^31 splits; and the compute buffer has its full length.
  pub build_index-IsAnswered :
      (most : ℕ) (pv_sample pv_info uv_sample uv_info : Option (List (List ℕ))) (d : Numbers)
      (write : d.Double → d.Double → d.Double → d.Double → d.Double → List ℕ) (param : Param d)
      (qd : QueryData) (h : RequestHandler d)
      → ((field : List ℕ) → read_float field < 2 ^ 32)
      → OnSome (IsSource (get_size conf_targets) most) pv_sample
      → OnSome (IsSource (get_size conf_targets) most) uv_sample
      → IsSampled visitor_samples
      → length visitor_samples ≤ most
      → row_width most ≤ compute_buffer_size
      → ((name : List ℕ) (n : ℕ)
          → query_online conf_targets name ≡ pos n
          → n < get_size conf_targets)
      → encode_targeting (query_online conf_targets) qd.targetings ≢ []
      → IsShort d param
      → IsRoom h.compute_buf
      → (ix : Index) × (after : RequestHandler d) × (build_index true procs threads read_float
            (some conf)
            pv_sample
            pv_info
            uv_sample
            uv_info
            (some visitors)
          ≡ some (some ix))
        × (process d write (query_online conf_targets) ix param qd h ≡ some (done after))
        × IsRoom after.compute_buf
  build_index-IsAnswered most pv_sample pv_info uv_sample uv_info d write param qd h floats pvs uvs
        sampled few fits known some_group short room =
      let (ix, built, all, merged) =
        build_index-AllStorable true procs threads read_float most conf pv_sample pv_info uv_sample
          uv_info (some visitors) floats pvs uvs sampled in
      let made = merged.0 in
      let narrow : made.made.width ≤ compute_buffer_size =
        omega (arith, made.width, row_width_mono (length visitor_samples) most few, fits) in
      let served =
        IsSized-IsServed (query_online conf_targets) (get_size conf_targets) most known fits
          qd.targetings in
      let (after, answered, room') =
        process-IsAnswered d write (query_online conf_targets) ix param qd made merged.1
          (omega (arith, narrow)) narrow
          (λ psid b e.
            let (s, same, sized) = all.pvs psid b e in
            (
              served b.base some_group s.base sized,
              record { pvs = s.pvs.whole_day; ctrs = s.ctrs.whole_day },
            ))
          (λ psid b e.
            let (s, same, sized) = all.uvs psid b e in served b.base some_group s.base sized)
          short h room in
      (ix, after, built, answered, room')
