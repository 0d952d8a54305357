-- ===== src/RequestHandler/Whole.antt =====
-- `Process` of src/request_handler.cc against the samples of each ad position, without a buffer.
use high_dimensional_flow_re.Base.{
  ℕ, Bool, replicate, ◌*◌, ◌≤◌, ◌<◌, ◌^◌, ◌≡◌, refl, ap, sym, ◌∙◌, Option, none, some, List, [],
  ◌∷◌, ◌>>=◌, leb, ltb, ◌==◌, if◌then◌else◌, length, All,
}
use high_dimensional_flow_re.Base.Ints.{ℤ}
use high_dimensional_flow_re.Base.Bytes.{IsByte}
use high_dimensional_flow_re.Bitmap.Valid.{IsValid}
use high_dimensional_flow_re.BidBitmap.{BidBitmap, Result}
use high_dimensional_flow_re.BidBitmap.Tally.{IsPriced}
use high_dimensional_flow_re.PvBidBitmap.{PvBidBitmap}
use high_dimensional_flow_re.UvBidBitmap.{UvBidBitmap}
use high_dimensional_flow_re.PvBidBitmap.Rates.{get_hourly_ctr}
use high_dimensional_flow_re.UvMergeBitmap.{UvMergeBitmap}
use high_dimensional_flow_re.UvMergeBitmap.Merge.{IsMerged}
use high_dimensional_flow_re.Index.{Index, lookup}
use high_dimensional_flow_re.QueryParser.{QueryData}
use high_dimensional_flow_re.Numbers.{Numbers}
use high_dimensional_flow_re.Param.{Param}
use high_dimensional_flow_re.RequestHandler.{target_count, compute_buffer_size}
use high_dimensional_flow_re.RequestHandler.Answer.{IsQuery, matching_sum, target_count-IsAnswer}
use high_dimensional_flow_re.RequestHandler.UvMerge.{
  merged_visitors, visitors_sum, merge_counts_lem,
}
use high_dimensional_flow_re.RequestHandler.Targeting.{encode_targeting}
use high_dimensional_flow_re.RequestHandler.Sums.{
  Sums, zero_sums, accumulate_pv, accumulate_uv, calculate,
}
use high_dimensional_flow_re.RequestHandler.Process.{
  RequestHandler, Ended, done, clear, finish, process_found, price, merge_rate, request_buffer_size,
  process_pv, process_uv, process_psids, process,
}

-- The numbers of the samples that have a target of every group.
abbrev pub answer : BidBitmap → List (List ℕ) → ℕ → Result
answer b groups bid = record {
  bid_sum = matching_sum (λ p. p) b groups;
  target_num = matching_sum (λ p. 1) b groups;
  win_num = matching_sum (λ p. if leb p bid then 1 else 0) b groups;
  zero_num = matching_sum (λ p. if p == 0 then 1 else 0) b groups;
  bid_num = matching_sum (λ p. if ltb 0 p then 1 else 0) b groups;
}

-- A bitmap that answers the groups, with rows that fit a half of the compute buffer.
pub record IsServed (groups : List (List ℕ)) (b : BidBitmap) : Type 0 where
  pub valid : IsValid b.bitmap
  pub priced : IsPriced b
  pub query : IsQuery b groups
  pub row_fits : b.width ≤ compute_buffer_size

-- The compute buffer of a handler.
abbrev pub IsRoom : List ℕ → Type 0
IsRoom buf = (length buf ≡ compute_buffer_size * 2) × All IsByte buf

served_count :
    {groups : List (List ℕ)} {b : BidBitmap} (bid : ℕ) (buf : List ℕ)
    → IsServed groups b
    → IsRoom buf
    → (out : List ℕ) × (target_count b groups bid buf ≡ some (answer b groups bid, out))
      × IsRoom out
served_count bid buf v room =
    let a =
      target_count-IsAnswer v.valid v.priced v.query
        (record { halves = room.0; row_fits = v.row_fits; bytes = room.1 }) bid in
    (
      a.out,
      a.returns ∙ rw (← a.targets, ← a.bid_total, ← a.wins, ← a.zeros, ← a.priced) refl,
      (a.same_length ∙ room.0, a.bytes),
    )

bind_assoc :
    {A B C : Type 0} (m : Option A) (f : A → Option B) (g : B → Option C)
    → (m >>= λ a. f a >>= g) ≡ (m >>= f >>= g)
bind_assoc none f g = refl
bind_assoc (some a) f g = refl

module _ (d : Numbers) (index : Index) (param : Param d) (qd : QueryData)
    (groups : List (List ℕ)) where
  -- `Process` on the numbers alone: what an ad position adds to the sums.
  abbrev pub answer_pv : Option PvBidBitmap → Sums d → Option (Sums d)
  answer_pv none s = some s
  answer_pv (some b) s = get_hourly_ctr d b qd.hours >>= λ ctr.
      accumulate_pv d b (answer b.base groups (price qd)) param qd ctr s

  abbrev pub answer_uv : Option UvBidBitmap → Sums d → Option (Sums d)
  answer_uv none s = some s
  answer_uv (some b) s = accumulate_uv d b (answer b.base groups (price qd)) param s

  abbrev pub answer_psids : List (List ℕ) → Sums d → Option (Sums d)
  answer_psids [] s = some s
  answer_psids (psid ∷ psids) s =
      answer_pv (lookup index.pv_map psid) s
      >>= answer_uv (lookup index.uv_map psid)
      >>= answer_psids psids

  -- The numbers come out, with a buffer that still has room.
  pub record Answers (expected : Option (Sums d)) (m : Option (List ℕ × Sums d)) : Type 0 where
    pub out : List ℕ
    pub returns : m ≡ (expected >>= λ s. some (out, s))
    pub room : IsRoom out

  Answers-bind :
      {e : Option (Sums d)} {m : Option (List ℕ × Sums d)} (f : Sums d → Option (Sums d))
      (k : List ℕ × Sums d → Option (List ℕ × Sums d))
      → Answers e m
      → ((buf : List ℕ) (s : Sums d) → IsRoom buf → Answers (f s) (k (buf, s)))
      → Answers (e >>= f) (m >>= k)
  Answers-bind {e = none} f k a h = record {
    out = a.out;
    returns = ap (λ o. o >>= k) a.returns;
    room = a.room;
  }
  Answers-bind {e = some s} f k a h =
      let rest = h a.out s a.room in
      record {
        out = rest.out;
        returns = ap (λ o. o >>= k) a.returns ∙ rest.returns;
        room = rest.room;
      }

  module _
      (pv_served : (psid : List ℕ) (b : PvBidBitmap)
        → lookup index.pv_map psid ≡ some b
        → IsServed groups b.base)
      (uv_served : (psid : List ℕ) (b : UvBidBitmap)
        → lookup index.uv_map psid ≡ some b
        → IsServed groups b.base) where
    process_pv-Answers :
        (o : Option PvBidBitmap) (buf : List ℕ) (s : Sums d)
        → ((b : PvBidBitmap) → o ≡ some b → IsServed groups b.base)
        → IsRoom buf
        → Answers (answer_pv o s) (process_pv d index param qd groups o (buf, s))
    unfolding process_pv
    process_pv-Answers none buf s served room = record { out = buf; returns = refl; room = room }
    process_pv-Answers (some b) buf s served room =
        let (out, e, room') = served_count (price qd) buf (served b refl) room in
        record {
          out = out;
          returns = rw e (bind_assoc (get_hourly_ctr d b qd.hours) _ _);
          room = room';
        }

    process_uv-Answers :
        (o : Option UvBidBitmap) (buf : List ℕ) (s : Sums d)
        → ((b : UvBidBitmap) → o ≡ some b → IsServed groups b.base)
        → IsRoom buf
        → Answers (answer_uv o s) (process_uv d index param qd groups o (buf, s))
    unfolding process_uv
    process_uv-Answers none buf s served room = record { out = buf; returns = refl; room = room }
    process_uv-Answers (some b) buf s served room =
        let (out, e, room') = served_count (price qd) buf (served b refl) room in
        record { out = out; returns = rw e refl; room = room' }

    process_psids-Answers :
        (psids : List (List ℕ)) (buf : List ℕ) (s : Sums d)
        → IsRoom buf
        → Answers (answer_psids psids s) (process_psids d index param qd groups psids (buf, s))
    unfolding process_psids
    process_psids-Answers [] buf s room = record { out = buf; returns = refl; room = room }
    process_psids-Answers (psid ∷ psids) buf s room =
        Answers-bind (answer_psids psids) (process_psids d index param qd groups psids)
          (Answers-bind (answer_uv (lookup index.uv_map psid))
            (process_uv d index param qd groups (lookup index.uv_map psid))
            (process_pv-Answers (lookup index.pv_map psid) buf s (pv_served psid) room)
            (λ buf' s' room'.
              process_uv-Answers (lookup index.uv_map psid) buf' s' (uv_served psid) room'))
          (λ buf' s' room'. process_psids-Answers psids buf' s' room')

-- What a handler holds after an answer with the sums `s`.
abbrev pub answered :
    (d : Numbers) (write : d.Double → d.Double → d.Double → d.Double → d.Double → List ℕ)
    (param : Param d) (qd : QueryData) (groups : List (List ℕ)) (out : List ℕ)
    → Sums d
    → RequestHandler d
answered d write param qd groups out s =
    let summed = calculate d param qd s in
    record {
      request_buf = replicate request_buffer_size 0;
      compute_buf = out;
      targetings = groups;
      json_str = write summed.pv summed.uv summed.avg_ctr summed.avg_bid summed.win_rate;
      sums = summed;
    }

module _ (d : Numbers) (write : d.Double → d.Double → d.Double → d.Double → d.Double → List ℕ)
    (query : List ℕ → ℤ) (index : Index) (param : Param d) (qd : QueryData) where
  abbrev groups_of : List (List ℕ)
  groups_of = encode_targeting query qd.targetings

  -- The sums before the loop.
  abbrev pub merged_sums : List (List (List ℕ)) → Sums d
  merged_sums samples = record (zero_sums d) {
    uv_merge_rate = merge_rate d (merged_visitors samples qd.psids) (visitors_sum samples qd.psids);
  }

  pub process_lem :
      {samples : List (List (List ℕ))} {result : Option (Bool × UvMergeBitmap)}
      (m : IsMerged samples result)
      → index.uv_merge_map ≡ some m.made
      → 8 * m.made.width < 2 ^ 31
      → m.made.width ≤ compute_buffer_size
      → ((psid : List ℕ) (b : PvBidBitmap)
          → lookup index.pv_map psid ≡ some b
          → IsServed (encode_targeting query qd.targetings) b.base)
      → ((psid : List ℕ) (b : UvBidBitmap)
          → lookup index.uv_map psid ≡ some b
          → IsServed (encode_targeting query qd.targetings) b.base)
      → (h : RequestHandler d) → IsRoom h.compute_buf
      → (out : List ℕ) × (process d write query index param qd h ≡ (
          answer_psids d index param qd
            (encode_targeting query qd.targetings)
            qd.psids
            (merged_sums samples)
          >>= λ s.
              some (done (answered d write param qd (encode_targeting query qd.targetings) out s))))
        × IsRoom out
  unfolding process
  process_lem {samples} m found narrow fits pv_served uv_served h room =
      let (mask, e, long, bytes) =
        merge_counts_lem m qd.psids h.compute_buf narrow
          (record { halves = room.0; row_fits = fits; bytes = room.1 }) in
      let a =
        process_psids-Answers d index param qd groups_of pv_served uv_served qd.psids mask
          (merged_sums samples) (long ∙ room.0, bytes) in
      let started = record (clear d h) { targetings = groups_of } in
      let last : List ℕ × Sums d → Option (Ended d) =
        λ state. some (done (finish d write param qd started state)) in
      let counted : List ℕ → d.Double → Option (List ℕ × Sums d) = λ buf rate.
        process_psids d index param qd groups_of qd.psids
          (buf, record (zero_sums d) { uv_merge_rate = rate }) in
      (
        a.out,
        ap (λ o. process_found d write query index param qd o started) found
            ∙ ap (λ o. o >>= λ t. counted t.2 (merge_rate d t.0 t.1) >>= last) e
            ∙ ap (λ o. o >>= last) a.returns
            ∙ sym (
                bind_assoc (answer_psids d index param qd groups_of qd.psids (merged_sums samples))
                  _ last),
        a.room,
      )
