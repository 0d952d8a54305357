-- ===== src/RequestHandler/Process.antt =====
-- `Process` of src/request_handler.cc: the answer to a query over its ad positions.
use high_dimensional_flow_re.Base.{ℕ, ◌*◌, Option, none, some, List, [], ◌∷◌, ◌>>=◌, replicate}
use high_dimensional_flow_re.Base.Ints.{ℤ}
use high_dimensional_flow_re.Base.Decimal.{low_bits}
use high_dimensional_flow_re.PvBidBitmap.{PvBidBitmap}
use high_dimensional_flow_re.UvBidBitmap.{UvBidBitmap}
use high_dimensional_flow_re.PvBidBitmap.Rates.{get_hourly_ctr}
use high_dimensional_flow_re.UvMergeBitmap.{UvMergeBitmap}
use high_dimensional_flow_re.Index.{Index, lookup}
use high_dimensional_flow_re.QueryParser.{QueryData}
use high_dimensional_flow_re.Numbers.{Numbers, escape_zero}
use high_dimensional_flow_re.Param.{Param}
use high_dimensional_flow_re.RequestHandler.{target_count}
use high_dimensional_flow_re.RequestHandler.Targeting.{encode_targeting}
use high_dimensional_flow_re.RequestHandler.UvMerge.{merge_counts}
use high_dimensional_flow_re.RequestHandler.Sums.{
  Sums, zero_sums, accumulate_pv, accumulate_uv, calculate,
}

abbrev pub request_buffer_size : ℕ
request_buffer_size = 32 * 1024

-- The price as `Count` takes it.
abbrev pub price : QueryData → ℕ
price qd = low_bits 32 qd.price

module _ (d : Numbers) where
  open d use {Double, of_nat, add, div}

  pub record RequestHandler : Type 0 where
    pub request_buf : List ℕ
    pub compute_buf : List ℕ
    pub targetings : List (List ℕ)
    pub json_str : List ℕ
    pub sums : Sums d

  abbrev pub clear : RequestHandler → RequestHandler
  clear h = record {
    request_buf = replicate request_buffer_size 0;
    compute_buf = h.compute_buf;
    targetings = [];
    json_str = [];
    sums = zero_sums d;
  }

  -- The end of `GetUvMergeRate`.
  abbrev pub merge_rate : ℕ → ℕ → Double
  merge_rate merged sum =
      div (add (of_nat merged) (escape_zero d)) (add (of_nat sum) (escape_zero d))

  -- `process` ends the program where the index has no bitmap of visitors.
  pub data Ended : Type 0 where
    exited : Ended
    done : RequestHandler → Ended

  -- What is fixed during the loop of `Process`.
  module _ (index : Index) (param : Param d) (qd : QueryData) (targetings : List (List ℕ)) where
    -- The body of the loop, for the bitmap of page views and the one of visitors.
    unfoldable pub process_pv : Option PvBidBitmap → List ℕ × Sums d → Option (List ℕ × Sums d)
    process_pv none state = some state
    process_pv (some b) (buf, s) = do
      (result, buf') ← target_count b.base targetings (price qd) buf
      ctr ← get_hourly_ctr d b qd.hours
      s' ← accumulate_pv d b result param qd ctr s
      some (buf', s')

    unfoldable pub process_uv : Option UvBidBitmap → List ℕ × Sums d → Option (List ℕ × Sums d)
    process_uv none state = some state
    process_uv (some b) (buf, s) = do
      (result, buf') ← target_count b.base targetings (price qd) buf
      s' ← accumulate_uv d b result param s
      some (buf', s')

    unfoldable pub process_psids : List (List ℕ) → List ℕ × Sums d → Option (List ℕ × Sums d)
    process_psids [] state = some state
    process_psids (psid ∷ psids) state =
        process_pv (lookup index.pv_map psid) state
        >>= process_uv (lookup index.uv_map psid)
        >>= process_psids psids

  -- `ToJson` with the writer of the library, which takes pv, uv, average ctr, average bid and win
  -- rate.
  module _ (write : Double → Double → Double → Double → Double → List ℕ) where
    abbrev pub to_json : Sums d → List ℕ
    to_json s = write s.pv s.uv s.avg_ctr s.avg_bid s.win_rate

    -- After the loop.
    abbrev pub finish : Param d → QueryData → RequestHandler → List ℕ × Sums d → RequestHandler
    finish param qd h (buf, s) =
        let summed = calculate d param qd s in
        record h { compute_buf = buf; sums = summed; json_str = to_json summed }

    -- `query` is `GetTargetId` of the shared memory.
    module _ (query : List ℕ → ℤ) (index : Index) (param : Param d) (qd : QueryData) where
      abbrev pub process_merged : UvMergeBitmap → RequestHandler → Option Ended
      process_merged b h = do
        (merged, sum, buf) ← merge_counts b qd.psids h.compute_buf
        state ←
            process_psids index param qd h.targetings qd.psids
              (buf, record h.sums { uv_merge_rate = merge_rate merged sum })
        some (done (finish param qd h state))

      abbrev pub process_found : Option UvMergeBitmap → RequestHandler → Option Ended
      process_found none h = some exited
      process_found (some b) h = process_merged b h

      unfoldable pub process : RequestHandler → Option Ended
      process h =
          process_found index.uv_merge_map
            (record (clear h) { targetings = encode_targeting query qd.targetings })
