-- ===== src/UvBidBitmap.antt =====
-- src/uv_bid_bitmap.cc and include/uv_bid_bitmap.h: the visitors of an ad position.
pub mod Files
pub mod Generate
pub mod Rates
use high_dimensional_flow_re.Base.{
  ℕ, ◌+◌, ◌*◌, Bool, true, false, Option, none, some, List, [], ◌++◌, if◌then◌else◌, ◌>>=◌, u32,
  length,
}
use high_dimensional_flow_re.Base.Ints.{ℤ, pos, negsuc, add_size}
use high_dimensional_flow_re.Base.Files.{
  Loaded, and_then, within, append, take, encode, encode_each, read_member, read_string,
}
use high_dimensional_flow_re.BidBitmap.{BidBitmap}
use high_dimensional_flow_re.BidBitmap

-- `psid` is a string, by the bytes of its characters.
pub record UvBidBitmap : Type 0 where
  pub base : BidBitmap
  pub psid : List ℕ
  pub request : ℕ
  pub uv : ℕ

abbrev pub clear : UvBidBitmap → UvBidBitmap
clear b = record { base = BidBitmap.clear b.base; psid = []; request = 0; uv = 0 }

-- `procs` is what `omp_get_num_procs` returns.
pub new_uv_bid_bitmap : ℕ → ℕ → UvBidBitmap
new_uv_bid_bitmap procs threads = record {
  base = BidBitmap.new_bid_bitmap procs threads;
  psid = [];
  request = 0;
  uv = 0;
}

pub generate :
    List ℕ → ℕ → ℕ → List (List ℕ) → List ℕ → ℕ → UvBidBitmap → Option (Bool × UvBidBitmap)
generate psid request uv cols bids height b = do
  (done, base) ← BidBitmap.generate cols bids height (clear b).base
  let made = record (clear b) { base = base }
  some (
      if done
      then (true, record made { psid = psid; request = request; uv = uv })
      else (false, made))

-- `Load` of the base class, as one of the whole object.
abbrev pub load_base : (ℕ → List ℕ) → UvBidBitmap → List ℕ → Loaded UvBidBitmap
load_base fresh b file =
    within (λ m. record b { base = m }) (BidBitmap.Files.load fresh b.base (some file))

abbrev pub load_psid : UvBidBitmap → List ℕ → Loaded UvBidBitmap
load_psid = read_string (λ b chars. record b { psid = chars })

abbrev pub load_request : UvBidBitmap → List ℕ → Loaded UvBidBitmap
load_request = read_member 8 (λ b. b.request) (λ b w. record b { request = w })

abbrev pub load_uv : UvBidBitmap → List ℕ → Loaded UvBidBitmap
load_uv = read_member 8 (λ b. b.uv) (λ b w. record b { uv = w })

-- `fresh n` is what an array of `n` bytes holds before it is written.
pub load : (ℕ → List ℕ) → UvBidBitmap → Option (List ℕ) → Loaded UvBidBitmap
load fresh b none = (negsuc 0, clear b, [])
load fresh b (some file) =
    and_then (load_base fresh (clear b) file)
      (λ b₁ f₁. and_then (load_psid b₁ f₁) (λ b₂ f₂. and_then (load_request b₂ f₂) load_uv))

-- What follows the base class in `Dump`.
pub dump_members : UvBidBitmap → ℤ × Option (List ℕ) → ℤ × Option (List ℕ)
dump_members b (negsuc n, out) = (negsuc n, out)
dump_members b (pos n, out) =
    let size = u32 (length b.psid) in
    (
      add_size (add_size (add_size (pos n) 4) size) (8 * 2),
      append (encode 8 b.uv) (
          append (encode 8 b.request)
            (append (encode_each 1 (take size b.psid)) (append (encode 4 size) out))),
    )

pub dump : UvBidBitmap → Option (List ℕ) → Option (ℤ × Option (List ℕ))
dump b none = some (negsuc 0, none)
dump b (some out) =
    BidBitmap.Files.dump b.base (some out) >>= λ written. some (dump_members b written)
