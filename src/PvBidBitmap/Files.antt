-- ===== src/PvBidBitmap/Files.antt =====
-- `Load` and `Dump` of src/pv_bid_bitmap.cc: the round trip.
use native.Mathlib.Nat.{mod-eq_of_lt}
use mathlib.Core.Path.{ap₂}
use high_dimensional_flow_re.Base.{
  ℕ, ◌+◌, ◌*◌, ◌^◌, ◌<◌, ◌≡◌, refl, ap, sym, ◌∙◌, some, List, [], ◌∷◌, ◌++◌, append_assoc,
  append-nil, arith, ◌>>=◌, length, length-append, All, u32,
}
use high_dimensional_flow_re.Base.Ints.{pos, add_size}
use high_dimensional_flow_re.Base.Bytes.{IsByte}
use high_dimensional_flow_re.Base.Files.{
  encode, encode_each, encode_string, within, and_then, read_each, push_all, take-all,
  length-encode, length-encode_each, length-encode_string,
}
use high_dimensional_flow_re.Base.Reads.{
  Reads, Reads-and_then, Reads-member, Reads-string, Reads-each,
}
use high_dimensional_flow_re.BidBitmap
use high_dimensional_flow_re.PvBidBitmap.{
  PvBidBitmap, hours_per_day, clear, load, load_base, load_psid, load_request, load_pv, load_hours,
  push_hourly_request, push_hourly_pv, push_hourly_ctr, dump, dump_members,
}

-- The object on disk, behind its base class.
pub hours_image : PvBidBitmap → List ℕ
hours_image b =
    encode_each 4 b.hourly_request ++ (encode_each 4 b.hourly_pv ++ encode_each 4 b.hourly_ctr)

pub members : PvBidBitmap → List ℕ
members b = encode_string b.psid ++ (encode 8 b.request ++ (encode 8 b.pv ++ hours_image b))

pub pv_image : PvBidBitmap → List ℕ
pv_image b = BidBitmap.Files.bid_image b.base ++ members b

-- A number for each hour of the day, each of 32 bits.
pub record IsHourly (xs : List ℕ) : Type 0 where
  pub whole_day : length xs ≡ hours_per_day
  pub fits : All (λ w. w < 2 ^ 32) xs

-- What a file can hold.
pub record IsStorable (b : PvBidBitmap) : Type 0 where
  pub base : BidBitmap.Files.IsStorable b.base
  pub psid_short : length b.psid < 2 ^ 32
  pub psid_bytes : All IsByte b.psid
  pub request_fits : b.request < 2 ^ 64
  pub pv_fits : b.pv < 2 ^ 64
  pub requests : IsHourly b.hourly_request
  pub pvs : IsHourly b.hourly_pv
  pub ctrs : IsHourly b.hourly_ctr

-- The object with the number of threads of another.
abbrev pub with_threads : PvBidBitmap → PvBidBitmap → PvBidBitmap
with_threads b b' = record b {
  base = record b.base { bitmap = record b.base.bitmap { threads = b'.base.threads } };
}

requests_pushed :
    (b : PvBidBitmap) (ws : List ℕ)
    → push_all push_hourly_request b ws ≡ record b { hourly_request = b.hourly_request ++ ws }
unfolding push_hourly_request
requests_pushed b [] =
    ap (λ xs. record b { hourly_request = xs }) (sym (append-nil b.hourly_request))
requests_pushed b (w ∷ ws) =
    requests_pushed (push_hourly_request b w) ws
    ∙ ap (λ xs. record b { hourly_request = xs }) (append_assoc b.hourly_request (w ∷ []) ws)

pvs_pushed :
    (b : PvBidBitmap) (ws : List ℕ)
    → push_all push_hourly_pv b ws ≡ record b { hourly_pv = b.hourly_pv ++ ws }
unfolding push_hourly_pv
pvs_pushed b [] = ap (λ xs. record b { hourly_pv = xs }) (sym (append-nil b.hourly_pv))
pvs_pushed b (w ∷ ws) =
    pvs_pushed (push_hourly_pv b w) ws
    ∙ ap (λ xs. record b { hourly_pv = xs }) (append_assoc b.hourly_pv (w ∷ []) ws)

ctrs_pushed :
    (b : PvBidBitmap) (ws : List ℕ)
    → push_all push_hourly_ctr b ws ≡ record b { hourly_ctr = b.hourly_ctr ++ ws }
unfolding push_hourly_ctr
ctrs_pushed b [] = ap (λ xs. record b { hourly_ctr = xs }) (sym (append-nil b.hourly_ctr))
ctrs_pushed b (w ∷ ws) =
    ctrs_pushed (push_hourly_ctr b w) ws
    ∙ ap (λ xs. record b { hourly_ctr = xs }) (append_assoc b.hourly_ctr (w ∷ []) ws)

-- The hours are read into an object that has none.
hours-Reads :
    (b c : PvBidBitmap)
    → IsStorable b
    → let empty = record c { hourly_request = []; hourly_pv = []; hourly_ctr = [] } in
      Reads load_hours empty (hours_image b) (record c {
        hourly_request = b.hourly_request;
        hourly_pv = b.hourly_pv;
        hourly_ctr = b.hourly_ctr;
      })
unfolding hours_image
hours-Reads b c s =
    let empty = record c { hourly_request = []; hourly_pv = []; hourly_ctr = [] } in
    let asked = record empty { hourly_request = b.hourly_request } in
    let seen = record asked { hourly_pv = b.hourly_pv } in
    let last = read_each 4 push_hourly_ctr hours_per_day in
    Reads-and_then (read_each 4 push_hourly_request hours_per_day)
      (λ b₁ f₁. and_then (read_each 4 push_hourly_pv hours_per_day b₁ f₁) last)
      (encode_each 4 b.hourly_request) (encode_each 4 b.hourly_pv ++ encode_each 4 b.hourly_ctr)
      (Reads-pushed push_hourly_request empty b.hourly_request
        (requests_pushed empty b.hourly_request) s.requests)
      (Reads-and_then (read_each 4 push_hourly_pv hours_per_day) last (encode_each 4 b.hourly_pv)
        (encode_each 4 b.hourly_ctr)
        (Reads-pushed push_hourly_pv asked b.hourly_pv (pvs_pushed asked b.hourly_pv) s.pvs)
        (Reads-pushed push_hourly_ctr seen b.hourly_ctr (ctrs_pushed seen b.hourly_ctr) s.ctrs))
  where
    Reads-pushed :
        (push : PvBidBitmap → ℕ → PvBidBitmap) (a : PvBidBitmap) (ws : List ℕ) {a' : PvBidBitmap}
        → push_all push a ws ≡ a'
        → IsHourly ws
        → Reads (read_each 4 push hours_per_day) a (encode_each 4 ws) a'
    Reads-pushed push a ws e h rest =
        Reads-each 4 push a ws hours_per_day h.whole_day h.fits rest ∙ ap (λ t. (pos 0, t, rest)) e

module _ (fresh : ℕ → List ℕ) (fresh_length : (n : ℕ) → length (fresh n) ≡ n) where
  -- `Load` reads back what was written of an object with a valid bitmap of a cell, a bid of 16 bits
  -- for each sample, the numbers of 24 hours, and members that fit their types, and leaves the bytes
  -- behind it; only the number of threads stays its own. An array of `n` bytes has `n` bytes.
  pub load-pv_image :
      (b b' : PvBidBitmap) (rest : List ℕ)
      → IsStorable b
      → load fresh b' (some (pv_image b ++ rest)) ≡ (pos 0, with_threads b b', rest)
  unfolding load pv_image members
  load-pv_image b b' rest s =
      let start = clear b' in
      let based = record start { base = (with_threads b b').base } in
      let named = record based { psid = b.psid } in
      let asked = record named { request = b.request } in
      let seen = record asked { pv = b.pv } in
      let after_request = λ (c : PvBidBitmap) (f : List ℕ). and_then (load_pv c f) load_hours in
      let after_psid =
        λ (c : PvBidBitmap) (f : List ℕ). and_then (load_request c f) after_request in
      let after_base = λ (c : PvBidBitmap) (f : List ℕ). and_then (load_psid c f) after_psid in
      let base : Reads (load_base fresh) start (BidBitmap.Files.bid_image b.base) based = λ r.
        ap (within (λ m. record start { base = m }))
          (BidBitmap.Files.load-bid_image fresh fresh_length b.base start.base r s.base) in
      Reads-and_then (load_base fresh) after_base (BidBitmap.Files.bid_image b.base) (members b)
        base
        (Reads-and_then load_psid after_psid (encode_string b.psid)
          (encode 8 b.request ++ (encode 8 b.pv ++ hours_image b))
          (Reads-string (λ c chars. record c { psid = chars }) based b.psid s.psid_short
            s.psid_bytes)
          (Reads-and_then load_request after_request (encode 8 b.request)
            (encode 8 b.pv ++ hours_image b)
            (Reads-member 8 (λ c. c.request) (λ c w. record c { request = w }) named b.request
              s.request_fits)
            (Reads-and_then load_pv load_hours (encode 8 b.pv) (hours_image b)
              (Reads-member 8 (λ c. c.pv) (λ c w. record c { pv = w }) asked b.pv s.pv_fits)
              (hours-Reads b seen s))))
        rest

length-members :
    (b : PvBidBitmap) → IsStorable b → length (members b) ≡ length b.psid + 4 + 16 + 96 + 96 + 96
unfolding members hours_image
length-members b s =
    let hours = hours_image b in
    let pv_on = encode 8 b.pv ++ hours in
    omega (
      arith,
      length-append (encode_string b.psid) (encode 8 b.request ++ pv_on),
      length-append (encode 8 b.request) pv_on,
      length-append (encode 8 b.pv) hours,
      length-append (encode_each 4 b.hourly_request)
          (encode_each 4 b.hourly_pv ++ encode_each 4 b.hourly_ctr),
      length-append (encode_each 4 b.hourly_pv) (encode_each 4 b.hourly_ctr),
      length-encode_string b.psid,
      length-encode 8 b.request,
      length-encode 8 b.pv,
      length-encode_each 4 b.hourly_request,
      length-encode_each 4 b.hourly_pv,
      length-encode_each 4 b.hourly_ctr,
      s.requests.whole_day,
      s.pvs.whole_day,
      s.ctrs.whole_day,
    )

pub pv_image-short : {b : PvBidBitmap} → IsStorable b → length (pv_image b) < 2 ^ 41
unfolding pv_image
pv_image-short {b} s =
    let front = BidBitmap.Files.bid_image b.base in
    omega (
      arith,
      length-append front (members b),
      BidBitmap.Files.bid_image-short s.base,
      length-members b s,
      s.psid_short,
    )

sizes :
    (m n : ℕ)
    → m < 2 ^ 40
    → n < 2 ^ 32
    → add_size (add_size (add_size (add_size (add_size (pos m) (n + 4)) (8 * 2)) 96) 96) 96
      ≡ pos (m + (n + 4 + 16 + 96 + 96 + 96))
sizes m n hm hn = ground arith

-- `Dump` of such an object appends the bitmap, its bids and its members to the file, and returns
-- their size.
pub dump-pv_image :
    (b : PvBidBitmap) (out : List ℕ)
    → IsStorable b
    → dump b (some out) ≡ some (pos (length (pv_image b)), some (out ++ pv_image b))
unfolding dump dump_members pv_image
dump-pv_image b out s =
    let front = BidBitmap.Files.bid_image b.base in
    let short : u32 (length b.psid) ≡ length b.psid = mod-eq_of_lt s.psid_short in
    let whole = take-all (length b.psid) b.psid refl in
    ap (λ o. o >>= λ written. some (dump_members b written))
      (BidBitmap.Files.dump-bid_image b.base out s.base)
    ∙ rw (short, whole, s.requests.whole_day, s.pvs.whole_day, s.ctrs.whole_day)
        (ap₂ (λ n o. some (n, some o))
          (sizes (length front) (length b.psid) (BidBitmap.Files.bid_image-short s.base)
              s.psid_short
            ∙ ap pos (omega (arith, length-append front (members b), length-members b s)))
          (unfold members in unfold encode_string in unfold hours_image in simp append_assoc))

-- What `Dump` appends of an object with a valid bitmap of a cell, a bid of 16 bits for
-- each sample, the numbers of 24 hours, and members that fit their types, and whose size it returns, `Load` reads back, and
-- leaves the bytes behind it; only the number of threads stays its own. An array of `n` bytes has
-- `n` bytes, and the numbers of the header fit 32 bits.
pub load-dump_pv :
    (fresh : ℕ → List ℕ)
    → ((n : ℕ) → length (fresh n) ≡ n)
    → (b b' : PvBidBitmap) (out rest : List ℕ) → IsStorable b
    → (bytes : List ℕ) × (dump b (some out) ≡ some (pos (length bytes), some (out ++ bytes)))
      × (load fresh b' (some (bytes ++ rest)) ≡ (pos 0, with_threads b b', rest))
load-dump_pv fresh fresh_length b b' out rest s =
    (pv_image b, dump-pv_image b out s, load-pv_image fresh fresh_length b b' rest s)
