-- ===== src/Builder/Filled.antt =====
-- `ProcessPvMap` and `ProcessUvMap` of src/builder.cc: what they fill the index with.
use high_dimensional_flow_re.Base.{
  ℕ, ◌<◌, ◌^◌, ◌≡◌, refl, Bool, Option, none, some, List, [], length,
}
use high_dimensional_flow_re.Base.Ints.{ℤ, pos, negsuc}
use high_dimensional_flow_re.PvBidBitmap.{PvBidBitmap, new_pv_bid_bitmap}
use high_dimensional_flow_re.PvBidBitmap
use high_dimensional_flow_re.UvBidBitmap.{UvBidBitmap, new_uv_bid_bitmap}
use high_dimensional_flow_re.UvBidBitmap
use high_dimensional_flow_re.UvMergeBitmap
use high_dimensional_flow_re.Index.{Index, add_pv_bid_bitmap, add_uv_bid_bitmap}
use high_dimensional_flow_re.Index.Add.{AllOf, add-AllOf}
use high_dimensional_flow_re.TargetMap.{TargetMap, get_size}
use high_dimensional_flow_re.Builder.{
  PvInfo, UvInfo, add_pv, add_uv, parse_pv_info, parse_uv_info, parse_samples, read_infos,
  process_pv_map, process_uv_map,
}
use high_dimensional_flow_re.Builder.Fields.{
  OnSome, IsFitPv, IsFitUv, parse_pv_info-IsFitPv, parse_uv_info-IsFitUv, read_infos-AllFit,
}
use high_dimensional_flow_re.Builder.Runs.{Run}
use high_dimensional_flow_re.Builder.Made.{
  IsFitRun, parsed-IsFitRun, IsSource, IsFitRun-IsInput, add_samples-Kept, IsSized, header-IsSized,
}

-- Every bitmap of the index can be stored, stands under its own psid, and has a row for each target
-- and columns for at most so many samples.
module _ (targets most : ℕ) where
  abbrev pub PvHolds : List ℕ → PvBidBitmap → Type 0
  PvHolds psid b = PvBidBitmap.Files.IsStorable b × (b.psid ≡ psid) × IsSized targets most b.base

  abbrev pub UvHolds : List ℕ → UvBidBitmap → Type 0
  UvHolds psid b = UvBidBitmap.Files.IsStorable b × (b.psid ≡ psid) × IsSized targets most b.base

  pub record AllStorable (ix : Index) : Type 0 where
    pub pvs : AllOf PvHolds ix.pv_map
    pub uvs : AllOf UvHolds ix.uv_map

-- That, with the bitmap of visitors of before.
pub record IsFilled (targets most : ℕ) (merged : Option UvMergeBitmap.UvMergeBitmap) (ix : Index)
    : Type 0 where
  pub storable : AllStorable targets most ix
  pub merged_kept : ix.uv_merge_map ≡ merged

module _ (memory : Bool) (procs threads : ℕ) (read_float : List ℕ → ℕ) (m : TargetMap) (most : ℕ)
    (merged : Option UvMergeBitmap.UvMergeBitmap) where
  abbrev pub Filled : Option (ℤ × Index) → Type 0
  Filled result =
      (code : ℤ) × (after : Index) × (result ≡ some (code, after))
      × IsFilled (get_size m) most merged after

  module _ (lines : List (List ℕ)) (source : IsSource (get_size m) most lines) where
    add_pv-IsFilled :
        (r : Run) (info : PvInfo) (ix : Index)
        → IsFitRun most r
        → IsFitPv info
        → IsFilled (get_size m) most merged ix
        → (after : Index) × (add_pv memory procs threads read_float m r.psid info r.targets r.bids
              ix
            ≡ some after)
          × IsFilled (get_size m) most merged after
    unfolding add_pv_bid_bitmap
    add_pv-IsFilled r info ix fit i h =
        let (done, b, made, on_true) =
          PvBidBitmap.Generate.generate-OnTrue r.psid info.request info.pv info.hourly_request
            info.hourly_pv info.hourly_ctr r.targets r.bids (get_size m)
            (new_pv_bid_bitmap procs threads) i.requests i.pvs i.ctrs
            (IsFitRun-IsInput (get_size m) most lines r source fit) fit.name.short fit.name.bytes
            i.request_fits i.pv_fits in
        let (code, after, e, all) =
          add-AllOf (PvHolds (get_size m) most) memory done b ix.pv_map r.psid h.storable.pvs (λ e.
            let (s, same, head) = on_true e in
            (s, same, header-IsSized (get_size m) most (length r.targets) b.base fit.few head)) in
        (
          record ix { pv_map = after },
          rw made (rw e refl),
          record {
            storable = record { pvs = all; uvs = h.storable.uvs };
            merged_kept = h.merged_kept;
          },
        )

    add_uv-IsFilled :
        (r : Run) (info : UvInfo) (ix : Index)
        → IsFitRun most r
        → IsFitUv info
        → IsFilled (get_size m) most merged ix
        → (after : Index) × (add_uv memory procs threads read_float m r.psid info r.targets r.bids
              ix
            ≡ some after)
          × IsFilled (get_size m) most merged after
    unfolding add_uv_bid_bitmap
    add_uv-IsFilled r info ix fit i h =
        let (done, b, made, on_true) =
          UvBidBitmap.Generate.generate-OnTrue r.psid info.request info.uv r.targets r.bids
            (get_size m) (new_uv_bid_bitmap procs threads)
            (IsFitRun-IsInput (get_size m) most lines r source fit) fit.name.short fit.name.bytes
            i.request_fits i.uv_fits in
        let (code, after, e, all) =
          add-AllOf (UvHolds (get_size m) most) memory done b ix.uv_map r.psid h.storable.uvs (λ e.
            let (s, same, head) = on_true e in
            (s, same, header-IsSized (get_size m) most (length r.targets) b.base fit.few head)) in
        (
          record ix { uv_map = after },
          rw made (rw e refl),
          record {
            storable = record { pvs = h.storable.pvs; uvs = all };
            merged_kept = h.merged_kept;
          },
        )

  pub process_pv_map-IsFilled :
      (sample info : Option (List (List ℕ))) (ix : Index)
      → ((field : List ℕ) → read_float field < 2 ^ 32)
      → OnSome (IsSource (get_size m) most) sample
      → IsFilled (get_size m) most merged ix
      → Filled (process_pv_map memory procs threads read_float m sample info ix)
  unfolding process_pv_map
  process_pv_map-IsFilled none info ix floats source h = (negsuc 0, ix, refl, h)
  process_pv_map-IsFilled (some lines) none ix floats source h = (negsuc 0, ix, refl, h)
  process_pv_map-IsFilled (some lines) (some info) ix floats source h =
      let (after, e, all) =
        add_samples-Kept IsFitPv (IsFitRun most) (IsFilled (get_size m) most merged)
          (add_pv memory procs threads read_float m) (add_pv-IsFilled lines source)
          (read_infos (parse_pv_info read_float) (λ i. i.psid) [] info) (parse_samples m lines) ix
          (read_infos-AllFit IsFitPv (parse_pv_info read_float) (λ i. i.psid) [] info
            (λ line. parse_pv_info-IsFitPv read_float line floats) tt)
          (parsed-IsFitRun m most lines source.texts source.bounded) h in
      (pos 0, after, rw e refl, all)

  pub process_uv_map-IsFilled :
      (sample info : Option (List (List ℕ))) (ix : Index)
      → OnSome (IsSource (get_size m) most) sample
      → IsFilled (get_size m) most merged ix
      → Filled (process_uv_map memory procs threads read_float m sample info ix)
  unfolding process_uv_map
  process_uv_map-IsFilled none info ix source h = (negsuc 0, ix, refl, h)
  process_uv_map-IsFilled (some lines) none ix source h = (negsuc 0, ix, refl, h)
  process_uv_map-IsFilled (some lines) (some info) ix source h =
      let (after, e, all) =
        add_samples-Kept IsFitUv (IsFitRun most) (IsFilled (get_size m) most merged)
          (add_uv memory procs threads read_float m) (add_uv-IsFilled lines source)
          (read_infos parse_uv_info (λ i. i.psid) [] info) (parse_samples m lines) ix
          (read_infos-AllFit IsFitUv parse_uv_info (λ i. i.psid) [] info parse_uv_info-IsFitUv tt)
          (parsed-IsFitRun m most lines source.texts source.bounded) h in
      (pos 0, after, rw e refl, all)
