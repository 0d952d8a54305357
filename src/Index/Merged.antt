-- ===== src/Index/Merged.antt =====
-- `Load` of src/index.cc: an index that it leaves with 0 has a bitmap of visitors.
use high_dimensional_flow_re.Base.{
  ℕ, zero, suc, ◌^◌, ◌≡◌, inl, inr, refl, Bool, true, false, Option, none, some, List, ltb,
  Bool-cases,
}
use high_dimensional_flow_re.Base.Ints.{ℤ, pos, negsuc}
use high_dimensional_flow_re.Base.Files.{Loaded}
use high_dimensional_flow_re.Base.Maps.{Map}
use high_dimensional_flow_re.UvMergeBitmap.{UvMergeBitmap}
use high_dimensional_flow_re.Index.{Index, clear}
use high_dimensional_flow_re.Base.Entries.{Reading}
use high_dimensional_flow_re.PvBidBitmap.{PvBidBitmap}
use high_dimensional_flow_re.UvBidBitmap.{UvBidBitmap}
use high_dimensional_flow_re.Index.Files.{
  load, load_first, load_second, load_bitmaps, load_pvs, load_uvs, load_merged, keep_merged,
}

module _ (memory : Bool) (procs threads : ℕ) (fresh : ℕ → List ℕ) where
  -- Where the code is 0, the index has a bitmap of visitors.
  abbrev HasMerged : ℤ × Index → Type 0
  HasMerged (pos zero, ix) = (b : UvMergeBitmap) × (ix.uv_merge_map ≡ some b)
  HasMerged (pos (suc n), ix) = Unit {0}
  HasMerged (negsuc n, ix) = Unit {0}

  keep_merged-HasMerged :
      (ix : Index) (r : Loaded UvMergeBitmap)
      → HasMerged (keep_merged memory procs threads fresh ix r)
  keep_merged-HasMerged ix (pos zero, b, file) = (b, refl)
  keep_merged-HasMerged ix (pos (suc n), b, file) = tt
  keep_merged-HasMerged ix (negsuc n, b, file) = tt

  load_merged-HasMerged :
      (file : List ℕ) (offset : ℕ) (ix : Index)
      → HasMerged (load_merged memory procs threads fresh file offset ix)
  unfolding load_merged
  load_merged-HasMerged file offset ix = elim (Bool-cases (ltb offset (2 ^ 63))) [
    | inr far ↦ rw far tt
    | inl near ↦ elim (Bool-cases memory) [
      | inr full ↦ rw (near, full) tt
      | inl room ↦ rw (near, room) (keep_merged-HasMerged ix _)
    ]
  ]

  load_uvs-HasMerged :
      (file : List ℕ) (uv_offsets : Map ℕ) (offset : ℕ) (ix : Index)
      (r : ℤ × Map (Option UvBidBitmap))
      → HasMerged (load_uvs memory procs threads fresh file uv_offsets offset ix r)
  load_uvs-HasMerged file uv_offsets offset ix (pos n, m) =
      load_merged-HasMerged file offset (record ix { uv_map = m })
  load_uvs-HasMerged file uv_offsets offset ix (negsuc n, m) = tt

  load_pvs-HasMerged :
      (file : List ℕ) (uv_offsets : Map ℕ) (offset : ℕ) (ix : Index)
      (r : ℤ × Map (Option PvBidBitmap))
      → HasMerged (load_pvs memory procs threads fresh file uv_offsets offset ix r)
  load_pvs-HasMerged file uv_offsets offset ix (pos n, m) =
      load_uvs-HasMerged file uv_offsets offset (record ix { pv_map = m }) _
  load_pvs-HasMerged file uv_offsets offset ix (negsuc n, m) = tt

  load_bitmaps-HasMerged :
      (file : List ℕ) (pv_offsets uv_offsets : Map ℕ) (ix : Index) (r : Bool × ℕ × List ℕ)
      → HasMerged (load_bitmaps memory procs threads fresh file pv_offsets uv_offsets ix r)
  load_bitmaps-HasMerged file pv_offsets uv_offsets ix (true, offset, rest) =
      load_pvs-HasMerged file uv_offsets offset ix _
  load_bitmaps-HasMerged file pv_offsets uv_offsets ix (false, offset, rest) = tt

  load_second-HasMerged :
      (file : List ℕ) (pv_offsets : Map ℕ) (ix : Index) (r : Loaded Reading)
      → HasMerged (load_second memory procs threads fresh file pv_offsets ix r)
  load_second-HasMerged file pv_offsets ix (pos zero, uv, rest) =
      load_bitmaps-HasMerged file pv_offsets uv.entries ix _
  load_second-HasMerged file pv_offsets ix (pos (suc n), uv, rest) = tt
  load_second-HasMerged file pv_offsets ix (negsuc n, uv, rest) = tt

  load_first-HasMerged :
      (file : List ℕ) (ix : Index) (r : Loaded Reading)
      → HasMerged (load_first memory procs threads fresh file ix r)
  load_first-HasMerged file ix (pos zero, pv, rest) = load_second-HasMerged file pv.entries ix _
  load_first-HasMerged file ix (pos (suc n), pv, rest) = tt
  load_first-HasMerged file ix (negsuc n, pv, rest) = tt

  load-HasMerged :
      (file : Option (List ℕ)) (ix : Index) → HasMerged (load memory procs threads fresh file ix)
  unfolding load
  load-HasMerged none ix = tt
  load-HasMerged (some file) ix = load_first-HasMerged file (clear ix) _

  -- An index that a load has left that has returned 0 has a bitmap of visitors.
  pub loaded-HasMerged :
      (file : Option (List ℕ)) (ix after : Index)
      → load memory procs threads fresh file ix ≡ (pos 0, after)
      → (b : UvMergeBitmap) × (after.uv_merge_map ≡ some b)
  loaded-HasMerged file ix after e = let h = load-HasMerged file ix in rw e at h
