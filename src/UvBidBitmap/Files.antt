-- ===== src/UvBidBitmap/Files.antt =====
-- `Load` and `Dump` of src/uv_bid_bitmap.cc: the round trip.
use native.Mathlib.Nat.{mod-eq_of_lt}
use mathlib.Core.Path.{ap₂}
use high_dimensional_flow_re.Base.{
  ℕ, ◌+◌, ◌*◌, ◌^◌, ◌<◌, ◌≡◌, refl, ap, ◌∙◌, some, List, ◌++◌, append_assoc, arith, ◌>>=◌, length,
  length-append, All, u32,
}
use high_dimensional_flow_re.Base.Ints.{pos, add_size}
use high_dimensional_flow_re.Base.Bytes.{IsByte}
use high_dimensional_flow_re.Base.Files.{
  encode, encode_string, within, and_then, take-all, length-encode, length-encode_string,
}
use high_dimensional_flow_re.Base.Reads.{Reads, Reads-and_then, Reads-member, Reads-string}
use high_dimensional_flow_re.BidBitmap
use high_dimensional_flow_re.UvBidBitmap.{
  UvBidBitmap, clear, load, load_base, load_psid, load_request, load_uv, dump, dump_members,
}

-- The object on disk, behind its base class.
pub members : UvBidBitmap → List ℕ
members b = encode_string b.psid ++ (encode 8 b.request ++ encode 8 b.uv)

pub uv_image : UvBidBitmap → List ℕ
uv_image b = BidBitmap.Files.bid_image b.base ++ members b

-- What a file can hold.
pub record IsStorable (b : UvBidBitmap) : Type 0 where
  pub base : BidBitmap.Files.IsStorable b.base
  pub psid_short : length b.psid < 2 ^ 32
  pub psid_bytes : All IsByte b.psid
  pub request_fits : b.request < 2 ^ 64
  pub uv_fits : b.uv < 2 ^ 64

-- The object with the number of threads of another.
abbrev pub with_threads : UvBidBitmap → UvBidBitmap → UvBidBitmap
with_threads b b' = record b {
  base = record b.base { bitmap = record b.base.bitmap { threads = b'.base.threads } };
}

module _ (fresh : ℕ → List ℕ) (fresh_length : (n : ℕ) → length (fresh n) ≡ n) where
  -- `Load` reads back what was written of an object with a valid bitmap of a cell, a bid of 16 bits
  -- for each sample, and members that fit their types, and leaves the bytes behind it; only the
  -- number of threads stays its own. An array of `n` bytes has `n` bytes.
  pub load-uv_image :
      (b b' : UvBidBitmap) (rest : List ℕ)
      → IsStorable b
      → load fresh b' (some (uv_image b ++ rest)) ≡ (pos 0, with_threads b b', rest)
  unfolding load uv_image members
  load-uv_image b b' rest s =
      let start = clear b' in
      let based = record start { base = (with_threads b b').base } in
      let named = record based { psid = b.psid } in
      let asked = record named { request = b.request } in
      let base : Reads (load_base fresh) start (BidBitmap.Files.bid_image b.base) based = λ r.
        ap (within (λ m. record start { base = m }))
          (BidBitmap.Files.load-bid_image fresh fresh_length b.base start.base r s.base) in
      Reads-and_then (load_base fresh)
        (λ b₁ f₁. and_then (load_psid b₁ f₁) (λ b₂ f₂. and_then (load_request b₂ f₂) load_uv))
        (BidBitmap.Files.bid_image b.base) (members b) base
        (Reads-and_then load_psid (λ b₂ f₂. and_then (load_request b₂ f₂) load_uv)
          (encode_string b.psid) (encode 8 b.request ++ encode 8 b.uv)
          (Reads-string (λ c chars. record c { psid = chars }) based b.psid s.psid_short
            s.psid_bytes)
          (Reads-and_then load_request load_uv (encode 8 b.request) (encode 8 b.uv)
            (Reads-member 8 (λ c. c.request) (λ c w. record c { request = w }) named b.request
              s.request_fits)
            (Reads-member 8 (λ c. c.uv) (λ c w. record c { uv = w }) asked b.uv s.uv_fits)))
        rest

length-members : (b : UvBidBitmap) → length (members b) ≡ 4 + length b.psid + 16
unfolding members
length-members b = omega (
  arith,
  length-append (encode_string b.psid) (encode 8 b.request ++ encode 8 b.uv),
  length-append (encode 8 b.request) (encode 8 b.uv),
  length-encode_string b.psid,
  length-encode 8 b.request,
  length-encode 8 b.uv,
)

pub uv_image-short : {b : UvBidBitmap} → IsStorable b → length (uv_image b) < 2 ^ 41
unfolding uv_image
uv_image-short {b} s =
    let front = BidBitmap.Files.bid_image b.base in
    omega (
      arith,
      length-append front (members b),
      BidBitmap.Files.bid_image-short s.base,
      length-members b,
      s.psid_short,
    )

sizes :
    (m n : ℕ)
    → m < 2 ^ 40
    → n < 2 ^ 32
    → add_size (add_size (add_size (pos m) 4) n) (8 * 2) ≡ pos (m + (4 + n + 16))
sizes m n hm hn = ground arith

-- `Dump` appends the bitmap, its bids and its members to the file, and returns their size.
pub dump-uv_image :
    (b : UvBidBitmap) (out : List ℕ)
    → IsStorable b
    → dump b (some out) ≡ some (pos (length (uv_image b)), some (out ++ uv_image b))
unfolding dump dump_members uv_image
dump-uv_image b out s =
    let front = BidBitmap.Files.bid_image b.base in
    let short : u32 (length b.psid) ≡ length b.psid = mod-eq_of_lt s.psid_short in
    let whole = take-all (length b.psid) b.psid refl in
    ap (λ o. o >>= λ written. some (dump_members b written))
      (BidBitmap.Files.dump-bid_image b.base out s.base)
    ∙ rw (short, whole)
        (ap₂ (λ n o. some (n, some o))
          (sizes (length front) (length b.psid) (BidBitmap.Files.bid_image-short s.base)
              s.psid_short
            ∙ ap pos (omega (arith, length-append front (members b), length-members b)))
          (unfold members in unfold encode_string in simp append_assoc))

-- What `Dump` appends of an object with a valid bitmap of a cell, a bid of 16 bits for
-- each sample, and members that fit their types, and whose size it returns, `Load` reads back, and
-- leaves the bytes behind it; only the number of threads stays its own. An array of `n` bytes has
-- `n` bytes, and the numbers of the header fit 32 bits.
pub load-dump_uv :
    (fresh : ℕ → List ℕ)
    → ((n : ℕ) → length (fresh n) ≡ n)
    → (b b' : UvBidBitmap) (out rest : List ℕ) → IsStorable b
    → (bytes : List ℕ) × (dump b (some out) ≡ some (pos (length bytes), some (out ++ bytes)))
      × (load fresh b' (some (bytes ++ rest)) ≡ (pos 0, with_threads b b', rest))
load-dump_uv fresh fresh_length b b' out rest s =
    (uv_image b, dump-uv_image b out s, load-uv_image fresh fresh_length b b' rest s)
