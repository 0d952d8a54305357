-- ===== src/Index.antt =====
-- The maps of src/index.cc and include/index.h: which ad position has which bitmaps.
pub mod Add
pub mod Files
pub mod Offsets
pub mod Stored
pub mod Placed
pub mod Reload
pub mod Kinds
pub mod Dumped
pub mod Restore
pub mod Front
pub mod Merged
use high_dimensional_flow_re.Base.{
  ℕ, Bool, true, false, Option, none, some, List, [], ◌∷◌, ◌>>=◌, if◌then◌else◌,
}
use high_dimensional_flow_re.Base.Ints.{ℤ, pos, negsuc}
use high_dimensional_flow_re.Base.Maps.{Map, find, put}
use high_dimensional_flow_re.UvBidBitmap.{UvBidBitmap, new_uv_bid_bitmap}
use high_dimensional_flow_re.PvBidBitmap.{PvBidBitmap, new_pv_bid_bitmap}
use high_dimensional_flow_re.UvMergeBitmap.{UvMergeBitmap}
use high_dimensional_flow_re.Bitmap.{new_bitmap}
use high_dimensional_flow_re.UvBidBitmap
use high_dimensional_flow_re.PvBidBitmap
use high_dimensional_flow_re.UvMergeBitmap

-- `none` as a value is a null pointer.
pub record Index : Type 0 where
  pub pv_map : Map (Option PvBidBitmap)
  pub uv_map : Map (Option UvBidBitmap)
  pub uv_merge_map : Option UvMergeBitmap

abbrev pub clear : Index → Index
clear ix = record { pv_map = []; uv_map = []; uv_merge_map = none }

module _ {B : Type 0} where
  -- `GetPvBidBitmap` and `GetUvBidBitmap`.
  abbrev pub value_of : Option (Option B) → Option B
  value_of none = none
  value_of (some b) = b

  abbrev pub lookup : Map (Option B) → List ℕ → Option B
  lookup m psid = value_of (find m psid)

  -- `map[psid]` in a test: a psid that is not there is entered with a null pointer.
  abbrev touch_found : Map (Option B) → List ℕ → Option (Option B) → Map (Option B)
  touch_found m psid none = put m psid none
  touch_found m psid (some b) = m

  pub touch : Map (Option B) → List ℕ → Map (Option B)
  touch m psid = touch_found m psid (find m psid)

  -- After `Generate`.
  pub add_made : Map (Option B) → List ℕ → Bool × B → ℤ × Map (Option B)
  add_made m psid (true, b) = (pos 0, put m psid (some b))
  add_made m psid (false, b) = (negsuc 1, m)

  -- After the test of the map. `memory` is whether `new` has found memory.
  pub add_found :
      Bool → Option (Bool × B) → Map (Option B) → List ℕ → Option B → Option (ℤ × Map (Option B))
  add_found memory made m psid (some b) = some (pos 1, m)
  add_found true made m psid none = made >>= λ result. some (add_made m psid result)
  add_found false made m psid none = some (negsuc 0, m)

  -- `AddPvBidBitmap` and `AddUvBidBitmap` on their map, where `made` is what `Generate` makes of a
  -- new object.
  pub add : Bool → Option (Bool × B) → Map (Option B) → List ℕ → Option (ℤ × Map (Option B))
  add memory made m psid = add_found memory made (touch m psid) psid (lookup m psid)

-- `procs` is what `omp_get_num_procs` returns, `threads` the flag `bitmap_parallel_threads`.
module _ (memory : Bool) (procs threads : ℕ) where
  unfoldable pub add_pv_bid_bitmap :
      List ℕ
      → ℕ
      → ℕ
      → List ℕ
      → List ℕ
      → List ℕ
      → List (List ℕ)
      → List ℕ
      → ℕ
      → Index
      → Option (ℤ × Index)
  add_pv_bid_bitmap psid request pv hourly_request hourly_pv hourly_ctr datas bids size ix = do
    (code, m) ←
        add memory
          (PvBidBitmap.generate psid request pv hourly_request hourly_pv hourly_ctr datas bids size
            (new_pv_bid_bitmap procs threads))
          ix.pv_map psid
    some (code, record ix { pv_map = m })

  unfoldable pub add_uv_bid_bitmap :
      List ℕ → ℕ → ℕ → List (List ℕ) → List ℕ → ℕ → Index → Option (ℤ × Index)
  add_uv_bid_bitmap psid request uv datas bids size ix = do
    (code, m) ←
        add memory
          (UvBidBitmap.generate psid request uv datas bids size (new_uv_bid_bitmap procs threads))
          ix.uv_map psid
    some (code, record ix { uv_map = m })

  -- `AddUvMergeBitmap` after its `Generate`.
  abbrev pub merge_made : Index → Bool × UvMergeBitmap → ℤ × Index
  merge_made ix (true, b) = (pos 0, record ix { uv_merge_map = some b })
  merge_made ix (false, b) = (negsuc 1, ix)

  abbrev pub new_uv_merge_bitmap : UvMergeBitmap
  new_uv_merge_bitmap = record { bitmap = new_bitmap procs threads; sample_uv = []; psid_dict = [] }

  unfoldable pub add_uv_merge_bitmap : List (List (List ℕ)) → Index → Option (ℤ × Index)
  add_uv_merge_bitmap psids ix = elim ix.uv_merge_map [
    | some b ↦ some (pos 1, ix)
    | none ↦
        let made = UvMergeBitmap.generate psids new_uv_merge_bitmap in
        if memory then (made >>= λ result. some (merge_made ix result)) else some (negsuc 0, ix)
  ]
