-- ===== src/Index/Restore.antt =====
-- `Dump` and `Load` of src/index.cc: an index is read back from its file.
use high_dimensional_flow_re.Base.{
  ℕ, ◌+◌, ◌*◌, ◌^◌, ◌≤◌, ◌<◌, ◌≡◌, refl, ap, sym, ◌∙◌, true, some, Option, List, [], ◌++◌, arith,
  ltb, lt→ltb, length, length-replicate, replicate, All, append_assoc, append-nil,
}
use high_dimensional_flow_re.Base.Ints.{ℤ, pos}
use high_dimensional_flow_re.Base.Maps.{Map, find}
use high_dimensional_flow_re.Base.Files.{drop, drop-append, read_word, read_word-encode}
use high_dimensional_flow_re.Base.Seek.{drop-drop}
use high_dimensional_flow_re.Base.Entries.{IsEntry, last_key, find-insert_all}
use high_dimensional_flow_re.UvBidBitmap.{UvBidBitmap}
use high_dimensional_flow_re.PvBidBitmap.{PvBidBitmap}
use high_dimensional_flow_re.UvMergeBitmap.{UvMergeBitmap}
use high_dimensional_flow_re.UvMergeBitmap
use high_dimensional_flow_re.UvMergeBitmap.Files.{merge_image, reloaded, load-merge_image}
use high_dimensional_flow_re.Index.{Index, clear, value_of, lookup, new_uv_merge_bitmap}
use high_dimensional_flow_re.Index.Files.{
  Orders, pv_offset_map_size, front_size, offset_bytes, load_offset_map, load_each, load_first,
  load_second, load_bitmaps, load_pvs, load_uvs, load_merged, keep_merged, dump, load,
}
use high_dimensional_flow_re.Index.Offsets.{
  length-offset_bytes, entries-few, reread, find-reread, All-insert_all,
  load_offset_map-offset_bytes,
}
use high_dimensional_flow_re.Index.Stored.{Stored, images, offsets_from, IsFound}
use high_dimensional_flow_re.Index.Placed.{IsPlaced, offsets_from-IsPlaced, offsets_from-find}
use high_dimensional_flow_re.Index.Reload.{Restores, map_loaded, load_each-Restores}
use high_dimensional_flow_re.Index.Kinds.{pv_stored, uv_stored}
use high_dimensional_flow_re.Index.Dumped.{
  pv_offsets, uv_start, uv_offsets, merge_start, index_file, IsStorable, pv_offsets-fit,
  uv_offsets-fit, index_file-IsFront, dump-index_file,
}

-- The map of offsets that is read again leads to all the bitmaps, where they lie in the file.
module _ {B : Type 0} (st : Stored B) where
  load_each-reread :
      (entries : Map (Option B)) (file tail : List ℕ) (offset : ℕ)
      → All (IsFound st entries) entries
      → drop offset file ≡ images st entries ++ tail
      → offset + length (images st entries) < 2 ^ 63
      → Restores st entries
          (load_each true st.load file (reread (offsets_from st entries offset [])) [])
  load_each-reread entries file tail offset found here small =
      let offsets = offsets_from st entries offset [] in
      load_each-Restores st entries file (reread offsets)
        (All-insert_all (IsPlaced st entries file) [] offsets tt
          (offsets_from-IsPlaced st entries entries file tail offset [] found here small tt))
        (λ psid b e.
          let (o, there) = offsets_from-find st entries offset [] psid b e in
          (o, find-reread offsets psid ∙ there))

module _ {pv_kind : Stored PvBidBitmap} {uv_kind : Stored UvBidBitmap} {orders : Orders}
    {b : UvMergeBitmap} {ix : Index} (s : IsStorable pv_kind uv_kind orders b ix) where
  abbrev file : List ℕ
  file = index_file pv_kind uv_kind orders b

  -- What lies behind the front of the file.
  pvs_here :
      drop front_size file
      ≡ images pv_kind orders.pv_entries
        ++ (images uv_kind orders.uv_entries ++ merge_image b orders.dict_entries)
  pvs_here =
      let pvs = images pv_kind orders.pv_entries in
      let uvs = images uv_kind orders.uv_entries in
      let merge = merge_image b orders.dict_entries in
      let start : List ℕ = replicate front_size 0 in
      (index_file-IsFront pv_kind uv_kind orders b s).behind
      ∙ ap (drop front_size)
          (append_assoc (start ++ pvs) uvs merge ∙ append_assoc start pvs (uvs ++ merge))
      ∙ drop-append front_size start (pvs ++ (uvs ++ merge)) (length-replicate front_size 0)

  -- Behind what lies at a place.
  next_here :
      (offset : ℕ) (xs ys : List ℕ)
      → drop offset file ≡ xs ++ ys
      → drop (offset + length xs) file ≡ ys
  next_here offset xs ys e =
      sym (drop-drop file offset (length xs))
      ∙ ap (drop (length xs)) e
      ∙ drop-append (length xs) xs ys refl

  uvs_here :
      drop (uv_start pv_kind uv_kind orders b) file
      ≡ images uv_kind orders.uv_entries ++ merge_image b orders.dict_entries
  uvs_here =
      next_here front_size (images pv_kind orders.pv_entries)
        (images uv_kind orders.uv_entries ++ merge_image b orders.dict_entries) pvs_here

  merge_here : drop (merge_start pv_kind uv_kind orders b) file ≡ merge_image b orders.dict_entries
  merge_here =
      next_here (uv_start pv_kind uv_kind orders b) (images uv_kind orders.uv_entries)
        (merge_image b orders.dict_entries) uvs_here

-- What `Load` makes of the file of an index: a psid finds the bitmaps that it found, with the number
-- of threads of new ones; and the bitmap of visitors has the same rows, numbers and dictionary.
pub record IsRestored (procs threads : ℕ) (fresh : ℕ → List ℕ)
    (fresh_length : (n : ℕ) → length (fresh n) ≡ n) (ix : Index) (b : UvMergeBitmap)
    (result : ℤ × Index) : Type 0 where
  pub after : Index
  pub returns : result ≡ (pos 0, after)
  pub pv_bitmaps :
      (psid : List ℕ)
      → lookup after.pv_map psid
        ≡ map_loaded (pv_stored procs threads fresh fresh_length) (lookup ix.pv_map psid)
  pub uv_bitmaps :
      (psid : List ℕ)
      → lookup after.uv_map psid
        ≡ map_loaded (uv_stored procs threads fresh fresh_length) (lookup ix.uv_map psid)
  pub merged : UvMergeBitmap
  pub merged_kept : after.uv_merge_map ≡ some merged
  pub merged_rows :
      merged.bitmap ≡ record b.bitmap { threads = (new_uv_merge_bitmap true procs threads).threads }
  pub merged_uv : merged.sample_uv ≡ b.sample_uv
  pub merged_dict : (psid : List ℕ) → find merged.psid_dict psid ≡ find b.psid_dict psid

load_reread :
    (m : Map ℕ) (file rest : List ℕ)
    → All (IsEntry 8) m
    → length (offset_bytes m) ≤ 64 * 1024
    → file ≡ offset_bytes m ++ rest
    → load_offset_map file ≡ (pos 0, record { key = last_key 8 [] m; entries = reread m }, rest)
load_reread m file rest fits short here =
    ap load_offset_map here
    ∙ load_offset_map-offset_bytes m rest
        (omega (arith, short, length-offset_bytes m, entries-few m fits)) fits

module _ (procs threads : ℕ) (fresh : ℕ → List ℕ) (fresh_length : (n : ℕ) → length (fresh n) ≡ n)
    (orders : Orders) (b : UvMergeBitmap) (ix : Index) where
  abbrev pv_kind : Stored PvBidBitmap
  pv_kind = pv_stored procs threads fresh fresh_length

  abbrev uv_kind : Stored UvBidBitmap
  uv_kind = uv_stored procs threads fresh fresh_length

  abbrev saved : List ℕ
  saved = index_file pv_kind uv_kind orders b

  load_merged-saved :
      (ix' : Index)
      → IsStorable pv_kind uv_kind orders b ix
      → load_merged true procs threads fresh saved (merge_start pv_kind uv_kind orders b) ix' ≡ (
        pos 0,
        record ix' {
          uv_merge_map =
              some (reloaded b orders.dict_entries (new_uv_merge_bitmap true procs threads));
        },
      )
  unfolding load_merged
  load_merged-saved ix' s =
      let offset = merge_start pv_kind uv_kind orders b in
      let fresh_one = new_uv_merge_bitmap true procs threads in
      let near : ltb offset (2 ^ 63) ≡ true = lt→ltb offset (2 ^ 63) (omega (arith, s.small)) in
      rw near (
        ap
          (λ f.
            keep_merged true procs threads fresh ix'
              (UvMergeBitmap.Files.load fresh fresh_one (some f)))
          (merge_here s ∙ sym (append-nil (merge_image b orders.dict_entries)))
        ∙ ap (keep_merged true procs threads fresh ix')
            (load-merge_image fresh fresh_length b fresh_one orders.dict_entries s.merged_fits []))

  load-saved :
      (ix' : Index)
      → IsStorable pv_kind uv_kind orders b ix
      → IsRestored procs threads fresh fresh_length ix b
          (load true procs threads fresh (some saved) ix')
  unfolding load
  load-saved ix' s =
      let front = index_file-IsFront pv_kind uv_kind orders b s in
      let pvo = pv_offsets pv_kind uv_kind orders b in
      let uvo = uv_offsets pv_kind uv_kind orders b in
      let offset = merge_start pv_kind uv_kind orders b in
      let uvs = images uv_kind orders.uv_entries in
      let merge = merge_image b orders.dict_entries in
      let pvs_back =
        load_each-reread pv_kind orders.pv_entries saved (uvs ++ merge) front_size s.pv_found
          (pvs_here s) (omega (arith, s.small)) in
      let uvs_back =
        load_each-reread uv_kind orders.uv_entries saved merge (uv_start pv_kind uv_kind orders b)
          s.uv_found (uvs_here s) (omega (arith, s.small)) in
      let start = clear ix' in
      let with_pv = record start { pv_map = pvs_back.after } in
      let with_uv = record with_pv { uv_map = uvs_back.after } in
      let merged_back = reloaded b orders.dict_entries (new_uv_merge_bitmap true procs threads) in
      record {
        after = record with_uv { uv_merge_map = some merged_back };
        returns =
            ap (load_first true procs threads fresh saved start) (
              load_reread pvo saved front.pv_rest (pv_offsets-fit pv_kind uv_kind orders b s)
                s.pv_short front.pv_here)
            ∙ ap (load_second true procs threads fresh saved (reread pvo) start) (
                load_reread uvo (drop pv_offset_map_size saved) front.uv_rest
                  (uv_offsets-fit pv_kind uv_kind orders b s) s.uv_short front.uv_here)
            ∙ ap (load_bitmaps true procs threads fresh saved (reread pvo) (reread uvo) start) (
                ap (read_word 8 0) front.offset_here
                ∙ read_word-encode 8 0 offset front.offset_rest (omega (arith, s.small)))
            ∙ ap (load_pvs true procs threads fresh saved (reread uvo) offset start)
                pvs_back.returns
            ∙ ap (load_uvs true procs threads fresh saved (reread uvo) offset with_pv)
                uvs_back.returns
            ∙ load_merged-saved with_uv s;
        pv_bitmaps = λ psid.
            pvs_back.same_bitmaps psid ∙ ap (λ o. map_loaded pv_kind (value_of o)) (s.same_pv psid);
        uv_bitmaps = λ psid.
            uvs_back.same_bitmaps psid ∙ ap (λ o. map_loaded uv_kind (value_of o)) (s.same_uv psid);
        merged = merged_back;
        merged_kept = refl;
        merged_rows = refl;
        merged_uv = refl;
        merged_dict =
            λ psid. find-insert_all 4 [] orders.dict_entries psid ∙ s.merged_fits.same_entries psid;
      }

-- `Load` reads back the file that `Dump` writes of an index, and whose length `Dump` returns: it
-- returns 0, each psid finds the bitmaps that it found, with the number of threads of new ones, and
-- the bitmap of visitors has the same rows, numbers and dictionary. The index has a bitmap of
-- visitors, all its bitmaps fit their files, no key comes twice, the maps of offsets take at most
-- 64 KB each, there are fewer than 2^63 bytes, memory is found and the file opens. The maps are
-- passed through in any order.
pub load-dump_index :
    (procs threads : ℕ) (fresh : ℕ → List ℕ) (fresh_length : (n : ℕ) → length (fresh n) ≡ n)
    (orders : Orders) (b : UvMergeBitmap) (ix ix' : Index)
    → IsStorable
        (pv_stored procs threads fresh fresh_length)
        (uv_stored procs threads fresh fresh_length)
        orders
        b
        ix
    → (file : List ℕ) × (dump true true orders ix ≡ some (pos (length file), some file))
      × IsRestored procs threads fresh fresh_length ix b
          (load true procs threads fresh (some file) ix')
load-dump_index procs threads fresh fresh_length orders b ix ix' s = (
  saved procs threads fresh fresh_length orders b ix,
  dump-index_file procs threads fresh fresh_length orders b s,
  load-saved procs threads fresh fresh_length orders b ix ix' s,
)
