-- ===== src/PvBidBitmap.antt =====
-- src/pv_bid_bitmap.cc and include/pv_bid_bitmap.h: the page views of an ad position.
pub mod Files
pub mod Generate
pub mod Rates
use high_dimensional_flow_re.Base.{
  ℕ, ◌+◌, ◌*◌, Bool, true, false, ◌&&◌, Option, none, some, List, [], ◌++◌, ◌==◌, if◌then◌else◌,
  ◌>>=◌, u32, length,
}
use high_dimensional_flow_re.Base.Ints.{ℤ, pos, negsuc, add_size}
use high_dimensional_flow_re.Base.Files.{
  Loaded, and_then, within, append, take, push_back, encode, encode_each, read_member, read_each,
  read_string,
}
use high_dimensional_flow_re.BidBitmap.{BidBitmap}
use high_dimensional_flow_re.BidBitmap

abbrev pub hours_per_day : ℕ
hours_per_day = 24

-- `psid` is a string, by the bytes of its characters; a `float` of `hourly_ctr` stands as the word
-- of its four bytes.
pub record PvBidBitmap : Type 0 where
  pub base : BidBitmap
  pub psid : List ℕ
  pub request : ℕ
  pub pv : ℕ
  pub hourly_request : List ℕ
  pub hourly_pv : List ℕ
  pub hourly_ctr : List ℕ

abbrev pub clear : PvBidBitmap → PvBidBitmap
clear b = record {
  base = BidBitmap.clear b.base;
  psid = [];
  request = 0;
  pv = 0;
  hourly_request = [];
  hourly_pv = [];
  hourly_ctr = [];
}

-- `procs` is what `omp_get_num_procs` returns.
pub new_pv_bid_bitmap : ℕ → ℕ → PvBidBitmap
new_pv_bid_bitmap procs threads = record {
  base = BidBitmap.new_bid_bitmap procs threads;
  psid = [];
  request = 0;
  pv = 0;
  hourly_request = [];
  hourly_pv = [];
  hourly_ctr = [];
}

abbrev pub is_valid_hourly_array : List ℕ → Bool
is_valid_hourly_array array = length array == hours_per_day

abbrev pub is_valid : PvBidBitmap → Bool
is_valid b =
    is_valid_hourly_array b.hourly_request
    && is_valid_hourly_array b.hourly_pv
    && is_valid_hourly_array b.hourly_ctr

-- What follows the base class in `Generate`: the members are set where it has returned true.
abbrev pub keep_members : PvBidBitmap → PvBidBitmap → Bool × BidBitmap → Bool × PvBidBitmap
keep_members made cleared (done, base) =
    if done then (true, record made { base = base }) else (false, record cleared { base = base })

pub generate :
    List ℕ
    → ℕ
    → ℕ
    → List ℕ
    → List ℕ
    → List ℕ
    → List (List ℕ)
    → List ℕ
    → ℕ
    → PvBidBitmap
    → Option (Bool × PvBidBitmap)
generate psid request pv hourly_request hourly_pv hourly_ctr cols bids height b =
    let made = record (clear b) {
      psid = psid;
      request = request;
      pv = pv;
      hourly_request = hourly_request;
      hourly_pv = hourly_pv;
      hourly_ctr = hourly_ctr;
    } in
    if is_valid made
    then (BidBitmap.generate cols bids height (clear b).base >>= λ result.
        some (keep_members made (clear b) result))
    else some (false, clear b)

-- `Load` of the base class, as one of the whole object.
abbrev pub load_base : (ℕ → List ℕ) → PvBidBitmap → List ℕ → Loaded PvBidBitmap
load_base fresh b file =
    within (λ m. record b { base = m }) (BidBitmap.Files.load fresh b.base (some file))

abbrev pub load_psid : PvBidBitmap → List ℕ → Loaded PvBidBitmap
load_psid = read_string (λ b chars. record b { psid = chars })

abbrev pub load_request : PvBidBitmap → List ℕ → Loaded PvBidBitmap
load_request = read_member 8 (λ b. b.request) (λ b w. record b { request = w })

abbrev pub load_pv : PvBidBitmap → List ℕ → Loaded PvBidBitmap
load_pv = read_member 8 (λ b. b.pv) (λ b w. record b { pv = w })

pub push_hourly_request : PvBidBitmap → ℕ → PvBidBitmap
push_hourly_request b w = record b { hourly_request = push_back b.hourly_request w }

pub push_hourly_pv : PvBidBitmap → ℕ → PvBidBitmap
push_hourly_pv b w = record b { hourly_pv = push_back b.hourly_pv w }

pub push_hourly_ctr : PvBidBitmap → ℕ → PvBidBitmap
push_hourly_ctr b w = record b { hourly_ctr = push_back b.hourly_ctr w }

-- The three loops over the hours.
abbrev pub load_hours : PvBidBitmap → List ℕ → Loaded PvBidBitmap
load_hours b file = and_then (read_each 4 push_hourly_request hours_per_day b file) (λ b₁ f₁.
    and_then (read_each 4 push_hourly_pv hours_per_day b₁ f₁)
      (read_each 4 push_hourly_ctr hours_per_day))

-- `fresh n` is what an array of `n` bytes holds before it is written.
pub load : (ℕ → List ℕ) → PvBidBitmap → Option (List ℕ) → Loaded PvBidBitmap
load fresh b none = (negsuc 0, clear b, [])
load fresh b (some file) = and_then (load_base fresh (clear b) file) (λ b₁ f₁.
    and_then (load_psid b₁ f₁)
      (λ b₂ f₂. and_then (load_request b₂ f₂) (λ b₃ f₃. and_then (load_pv b₃ f₃) load_hours)))

-- What follows the base class in `Dump`.
pub dump_members : PvBidBitmap → ℤ × Option (List ℕ) → ℤ × Option (List ℕ)
dump_members b (negsuc n, out) = (negsuc n, out)
dump_members b (pos n, out) =
    let size = u32 (length b.psid) in
    if is_valid b
    then (
      add_size
          (add_size
            (add_size (add_size (add_size (pos n) (size + 4)) (8 * 2))
              (4 * length b.hourly_request))
            (4 * length b.hourly_pv))
          (4 * length b.hourly_ctr),
      append (encode_each 4 b.hourly_ctr) (
          append (encode_each 4 b.hourly_pv) (
            append (encode_each 4 b.hourly_request) (
              append (encode 8 b.pv) (
                append (encode 8 b.request)
                  (append (encode_each 1 (take size b.psid)) (append (encode 4 size) out)))))),
    )
    else (negsuc 0, out)

pub dump : PvBidBitmap → Option (List ℕ) → Option (ℤ × Option (List ℕ))
dump b none = some (negsuc 0, none)
dump b (some out) =
    BidBitmap.Files.dump b.base (some out) >>= λ written. some (dump_members b written)
