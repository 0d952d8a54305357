-- ===== src/RequestHandler.antt =====
-- src/request_handler.cc: the answer to a query, from the bitmaps of the index.
-- `none` is an access outside an array.
pub mod Target
pub mod Fill
pub mod Groups
pub mod Answer
pub mod UvMerge
pub mod Targeting
pub mod Sums
pub mod Process
pub mod Clamps
pub mod Total
pub mod Visitors
pub mod Whole
use high_dimensional_flow_re.Base.{
  ℕ, zero, suc, ◌+◌, ◌*◌, Option, none, some, List, [], ◌∷◌, leb, if◌then◌else◌, ◌>>=◌, length, set,
}
use high_dimensional_flow_re.Bitmap.{Bitmap, row, at, and_words, or_words}
use high_dimensional_flow_re.BidBitmap.{BidBitmap, Result, count}

-- `compute_buffer_size`; the buffer `compute_buf_` has twice that many bytes.
abbrev pub compute_buffer_size : ℕ
compute_buffer_size = 10000000

-- The pointers of `GetTarget` into the buffer.
abbrev pub ptr1 : ℕ
ptr1 = 0

abbrev pub ptr2 : ℕ
ptr2 = compute_buffer_size

-- `memset` of `n` bytes from `i` on.
pub fill : ℕ → ℕ → ℕ → List ℕ → List ℕ
fill value i zero buf = buf
fill value i (suc n) buf = fill value (i + 1) n (set buf i value)

unfoldable pub memset : ℕ → ℕ → List ℕ → Option (List ℕ)
memset value n buf = if leb n (length buf) then some (fill value 0 n buf) else none

-- The loops that take one more row of a group into `p`.
unfoldable pub or_more : Bitmap → ℕ → List ℕ → List ℕ → Option (List ℕ)
or_more b p [] buf = some buf
or_more b p (t ∷ ts) buf = or_words b (row t) (at p) p buf >>= or_more b p ts

-- The first group goes to `ptr1`. Reading the first target of an empty group is a fault.
unfoldable pub first_group : Bitmap → List ℕ → List ℕ → Option (List ℕ)
first_group b [] buf = none
first_group b (t ∷ []) buf = or_words b (row t) (row t) ptr1 buf
first_group b (t ∷ u ∷ ts) buf = or_words b (row t) (row u) ptr1 buf >>= or_more b ptr1 ts

-- A further group goes to `ptr2` if it has two targets or more, and is taken into `ptr1`.
pub and_group : Bitmap → List ℕ → List ℕ → Option (List ℕ)
and_group b [] buf = none
and_group b (t ∷ []) buf = and_words b (row t) (at ptr1) ptr1 buf
and_group b (t ∷ u ∷ ts) buf =
    or_words b (row t) (row u) ptr2 buf
    >>= or_more b ptr2 ts
    >>= and_words b (at ptr1) (at ptr2) ptr1

pub more_groups : Bitmap → List (List ℕ) → List ℕ → Option (List ℕ)
more_groups b [] buf = some buf
more_groups b (g ∷ gs) buf = and_group b g buf >>= more_groups b gs

-- `GetTarget`: the groups are the member `targetings_`, the buffer is `compute_buf_`.
unfoldable pub get_target : Bitmap → List (List ℕ) → List ℕ → Option (List ℕ)
unfolding memset
get_target b [] buf = memset 0xff b.width buf
get_target b (g ∷ gs) buf = first_group b g buf >>= more_groups b gs

-- What the loop of `Process` does with either bitmap of an ad position before it accumulates: the
-- mask of the targets, and the statistics of the samples under it. The buffer comes back too.
pub target_count : BidBitmap → List (List ℕ) → ℕ → List ℕ → Option (Result × List ℕ)
target_count b groups bid buf = do
  mask ← get_target b.bitmap groups buf
  result ← count b mask bid
  some (result, mask)
