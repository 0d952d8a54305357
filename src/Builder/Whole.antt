-- ===== src/Builder/Whole.antt =====
-- `ProcessUvMergeMap` and `main` of src/builder.cc: the index that they come to.
use mathlib.Core.Option.{none-ne-some}
use high_dimensional_flow_re.Base.{
  ℕ, ◌<◌, ◌^◌, ◌≡◌, refl, Bool, true, false, Option, none, some, List, [],
}
use high_dimensional_flow_re.Base.Ints.{ℤ, pos, negsuc}
use high_dimensional_flow_re.UvMergeBitmap.Merge.{IsSampled, IsMerged, generate-IsMerged}
use high_dimensional_flow_re.UvMergeBitmap
use high_dimensional_flow_re.Index.{Index, add_uv_merge_bitmap, new_uv_merge_bitmap}
use high_dimensional_flow_re.TargetMap.{TargetMap, get_size, load}
use high_dimensional_flow_re.Builder.{process_uv_merge_map, merge_samples, build_index}
use high_dimensional_flow_re.Builder.Fields.{OnSome}
use high_dimensional_flow_re.Builder.Made.{IsSource}
use high_dimensional_flow_re.Builder.Filled.{
  AllStorable, IsFilled, process_pv_map-IsFilled, process_uv_map-IsFilled,
}

module _ (memory : Bool) (procs threads : ℕ) (read_float : List ℕ → ℕ) where
  -- The targets that the configuration names.
  abbrev pub targets_of : Option (List (List ℕ)) → TargetMap
  targets_of conf = (load (record { offline_dict = []; online_dict = [] }) conf).1

  abbrev pub merged_of : TargetMap → List (List ℕ) → List (List (List ℕ))
  merged_of m lines = merge_samples memory procs threads read_float m lines

  -- The bitmap of visitors is the one that `Generate` makes of the file, where there is one and
  -- memory is found.
  abbrev pub MergedFrom : TargetMap → Bool → Option (List (List ℕ)) → Index → Type 0
  MergedFrom m true (some lines) ix =
      (made : IsMerged (merged_of m lines)
        (UvMergeBitmap.generate (merged_of m lines) (new_uv_merge_bitmap memory procs threads)))
      × (ix.uv_merge_map ≡ some made.made)
  MergedFrom m true none ix = ix.uv_merge_map ≡ none
  MergedFrom m false uv_merge ix = ix.uv_merge_map ≡ none

  process_uv_merge_map-MergedFrom :
      (m : TargetMap) (most : ℕ) (found : Bool) (uv_merge : Option (List (List ℕ))) (ix : Index)
      → memory ≡ found
      → OnSome (λ lines. IsSampled (merged_of m lines)) uv_merge
      → IsFilled (get_size m) most none ix
      → (code : ℤ) × (after : Index) × (process_uv_merge_map memory procs threads read_float m
            uv_merge ix
          ≡ some (code, after))
        × AllStorable (get_size m) most after
        × MergedFrom m found uv_merge after
  unfolding process_uv_merge_map add_uv_merge_bitmap
  process_uv_merge_map-MergedFrom m most true none ix e sampled h =
      (negsuc 0, ix, refl, h.storable, h.merged_kept)
  process_uv_merge_map-MergedFrom m most false none ix e sampled h =
      (negsuc 0, ix, refl, h.storable, h.merged_kept)
  process_uv_merge_map-MergedFrom m most false (some lines) ix e sampled h =
      (negsuc 0, ix, rw (h.merged_kept, e) refl, h.storable, h.merged_kept)
  process_uv_merge_map-MergedFrom m most true (some lines) ix e sampled h =
      let g =
        generate-IsMerged (merged_of m lines) (new_uv_merge_bitmap memory procs threads) sampled in
      (
        pos 0,
        record ix { uv_merge_map = some g.made },
        rw (h.merged_kept, e) (rw (← e) (rw g.returns refl)),
        record { pvs = h.storable.pvs; uvs = h.storable.uvs },
        (g, refl),
      )

  -- `main` comes to an index in which every bitmap can be stored, stands under its own psid, and
  -- has a row for each target and columns for at most as many samples as there may be lines; and
  -- the bitmap of visitors is the one that `Generate` makes of the samples, where their file opens
  -- and memory is found. The configuration of the targets opens; where a file of samples opens,
  -- the configuration names a target, and the lines are bytes, each of a length of 32 bits, and so
  -- few that no size wraps; the visitors and their psids are so few that no size wraps; and a
  -- `float` has four bytes.
  pub build_index-AllStorable :
      (most : ℕ) (conf : List (List ℕ))
      (pv_sample pv_info uv_sample uv_info uv_merge : Option (List (List ℕ)))
      → ((field : List ℕ) → read_float field < 2 ^ 32)
      → OnSome (IsSource (get_size (targets_of (some conf))) most) pv_sample
      → OnSome (IsSource (get_size (targets_of (some conf))) most) uv_sample
      → OnSome (λ lines. IsSampled (merged_of (targets_of (some conf)) lines)) uv_merge
      → (ix : Index) × (build_index memory procs threads read_float
            (some conf)
            pv_sample
            pv_info
            uv_sample
            uv_info
            uv_merge
          ≡ some (some ix))
        × AllStorable (get_size (targets_of (some conf))) most ix
        × MergedFrom (targets_of (some conf)) memory uv_merge ix
  unfolding build_index load
  build_index-AllStorable most conf pv_sample pv_info uv_sample uv_info uv_merge floats pvs uvs
        sampled =
      let m = targets_of (some conf) in
      let empty : Index = record { pv_map = []; uv_map = []; uv_merge_map = none } in
      let (code₁, ix₁, e₁, h₁) =
        process_pv_map-IsFilled memory procs threads read_float m most none pv_sample pv_info empty
          floats pvs
          (record {
            storable = record {
              pvs = λ psid b e. absurd (none-ne-some b e);
              uvs = λ psid b e. absurd (none-ne-some b e);
            };
            merged_kept = refl;
          }) in
      let (code₂, ix₂, e₂, h₂) =
        process_uv_map-IsFilled memory procs threads read_float m most none uv_sample uv_info ix₁
          uvs h₁ in
      let (code₃, ix₃, e₃, storable, merged) =
        process_uv_merge_map-MergedFrom m most memory uv_merge ix₂ refl sampled h₂ in
      (ix₃, rw e₁ (rw e₂ (rw e₃ refl)), storable, merged)
