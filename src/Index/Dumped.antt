-- ===== src/Index/Dumped.antt =====
-- `Dump` of src/index.cc: the whole file that it writes.
use native.Mathlib.Nat.{mod-eq_of_lt}
use high_dimensional_flow_re.Base.{
  ℕ, ◌+◌, ◌*◌, ◌%◌, ◌^◌, ◌≤◌, ◌<◌, ◌≡◌, ap, sym, ◌∙◌, true, some, List, [], ◌++◌, arith, ◌>>=◌, u64,
  length, length-append, length-replicate, replicate, All,
}
use high_dimensional_flow_re.Base.Ints.{pos, int64}
use high_dimensional_flow_re.Base.Maps.{Map, find}
use high_dimensional_flow_re.Base.Files.{encode, length-encode}
use high_dimensional_flow_re.Base.Entries.{IsEntry}
use high_dimensional_flow_re.UvBidBitmap.{UvBidBitmap}
use high_dimensional_flow_re.PvBidBitmap.{PvBidBitmap}
use high_dimensional_flow_re.UvMergeBitmap.{UvMergeBitmap}
use high_dimensional_flow_re.UvBidBitmap
use high_dimensional_flow_re.UvMergeBitmap.Files.{merge_image, dump-merge_image}
use high_dimensional_flow_re.UvMergeBitmap
use high_dimensional_flow_re.Index.{Index}
use high_dimensional_flow_re.Index.Files.{
  Dumping, Orders, pv_offset_map_size, uv_offset_map_size, front_size, offset_bytes, entries_size,
  dump_each, write_front, finish_dump, dump_merged, dump,
}
use high_dimensional_flow_re.Index.Offsets.{length-offset_bytes, entries_size-length}
use high_dimensional_flow_re.Index.Stored.{Stored, images, offsets_from, IsFound, dump_each-images}
use high_dimensional_flow_re.Index.Placed.{IsKey, offsets_from-IsEntry}
use high_dimensional_flow_re.Index.Front.{IsFront, fronted, fronted-IsFront}
use high_dimensional_flow_re.Index.Kinds.{pv_stored, uv_stored}

-- The size that `DumpOffsetMap` returns.
entries_size_lem :
    (m : Map ℕ)
    → All (IsEntry 8) m
    → length (offset_bytes m) ≤ 64 * 1024
    → entries_size (pos 4) m ≡ pos (length (offset_bytes m))
entries_size_lem m fits short =
    let size = length-offset_bytes m in
    entries_size-length m 4 fits (omega (arith, short, size)) ∙ ap pos (sym size)

whole_size :
    (offset size : ℕ) → offset + size < 2 ^ 63 → int64 (u64 (offset + size)) ≡ pos (offset + size)
whole_size offset size small = ground arith

-- The end of `Dump`.
write_front-fronted :
    (pv_offsets uv_offsets : Map ℕ) (offset size : ℕ) (file : List ℕ)
    → All (IsEntry 8) pv_offsets
    → All (IsEntry 8) uv_offsets
    → length (offset_bytes pv_offsets) ≤ pv_offset_map_size
    → length (offset_bytes uv_offsets) ≤ uv_offset_map_size
    → offset + size < 2 ^ 63
    → write_front pv_offsets uv_offsets offset size file ≡ (
      pos (offset + size),
      fronted (offset_bytes pv_offsets) (offset_bytes uv_offsets) (encode 8 offset) file,
    )
unfolding write_front
write_front-fronted pv_offsets uv_offsets offset size file pv_fits uv_fits pv_short uv_short small =
    rw (entries_size_lem pv_offsets pv_fits pv_short, entries_size_lem uv_offsets uv_fits uv_short)
      (ap
        (λ n.
          (n, fronted (offset_bytes pv_offsets) (offset_bytes uv_offsets) (encode 8 offset) file))
        (whole_size offset size small))

module _ (pv_kind : Stored PvBidBitmap) (uv_kind : Stored UvBidBitmap) (orders : Orders)
    (b : UvMergeBitmap) where
  abbrev pub pv_offsets : Map ℕ
  pv_offsets = offsets_from pv_kind orders.pv_entries front_size []

  abbrev pub uv_start : ℕ
  uv_start = front_size + length (images pv_kind orders.pv_entries)

  abbrev pub uv_offsets : Map ℕ
  uv_offsets = offsets_from uv_kind orders.uv_entries uv_start []

  abbrev pub merge_start : ℕ
  merge_start = uv_start + length (images uv_kind orders.uv_entries)

  -- The file before its front is written.
  abbrev pub unfronted : List ℕ
  unfronted =
      replicate front_size 0
      ++ images pv_kind orders.pv_entries
      ++ images uv_kind orders.uv_entries
      ++ merge_image b orders.dict_entries

  abbrev pub index_file : List ℕ
  index_file =
      fronted (offset_bytes pv_offsets) (offset_bytes uv_offsets) (encode 8 merge_start) unfronted

  -- What a file can hold of an index: a bitmap of visitors; in the maps no key twice with a bitmap,
  -- keys of bytes, and bitmaps that fit; maps of offsets of at most 64 KB each; and so few bytes in
  -- all that their number does not wrap. `orders` has the entries of the maps in some order.
  pub record IsStorable (ix : Index) : Type 0 where
    pub has_merged : ix.uv_merge_map ≡ some b
    pub merged_fits : UvMergeBitmap.Files.IsStorable b orders.dict_entries
    pub pv_found : All (IsFound pv_kind orders.pv_entries) orders.pv_entries
    pub pv_keys : All (IsKey pv_kind) orders.pv_entries
    pub same_pv : (psid : List ℕ) → find orders.pv_entries psid ≡ find ix.pv_map psid
    pub pv_short : length (offset_bytes pv_offsets) ≤ pv_offset_map_size
    pub uv_found : All (IsFound uv_kind orders.uv_entries) orders.uv_entries
    pub uv_keys : All (IsKey uv_kind) orders.uv_entries
    pub same_uv : (psid : List ℕ) → find orders.uv_entries psid ≡ find ix.uv_map psid
    pub uv_short : length (offset_bytes uv_offsets) ≤ uv_offset_map_size
    pub small : merge_start + length (merge_image b orders.dict_entries) < 2 ^ 63

  module _ {ix : Index} (s : IsStorable ix) where
    pub pv_offsets-fit : All (IsEntry 8) pv_offsets
    pv_offsets-fit =
        offsets_from-IsEntry pv_kind orders.pv_entries front_size [] s.pv_keys
          (omega (arith, s.small)) tt

    pub uv_offsets-fit : All (IsEntry 8) uv_offsets
    uv_offsets-fit =
        offsets_from-IsEntry uv_kind orders.uv_entries uv_start [] s.uv_keys
          (omega (arith, s.small)) tt

    pub length-unfronted :
        length unfronted ≡ merge_start + length (merge_image b orders.dict_entries)
    length-unfronted =
        let pvs = images pv_kind orders.pv_entries in
        let uvs = images uv_kind orders.uv_entries in
        omega (
          arith,
          length-append (replicate front_size 0 ++ pvs ++ uvs) (merge_image b orders.dict_entries),
          length-append (replicate front_size 0 ++ pvs) uvs,
          length-append (replicate front_size 0) pvs,
          length-replicate {A = ℕ} front_size 0,
        )

    pub index_file-IsFront :
        IsFront
          (offset_bytes pv_offsets)
          (offset_bytes uv_offsets)
          (encode 8 merge_start)
          unfronted
          index_file
    index_file-IsFront =
        fronted-IsFront (offset_bytes pv_offsets) (offset_bytes uv_offsets) (encode 8 merge_start)
          unfronted s.pv_short s.uv_short (length-encode 8 merge_start)
          (omega (arith, length-unfronted))

module _ (procs threads : ℕ) (fresh : ℕ → List ℕ) (fresh_length : (n : ℕ) → length (fresh n) ≡ n)
    (orders : Orders) (b : UvMergeBitmap) where
  abbrev pv_kind : Stored PvBidBitmap
  pv_kind = pv_stored procs threads fresh fresh_length

  abbrev uv_kind : Stored UvBidBitmap
  uv_kind = uv_stored procs threads fresh fresh_length

  dump_merged-index_file :
      {ix : Index}
      → IsStorable pv_kind uv_kind orders b ix
      → dump_merged orders b
        ≡ some (
          pos (length (index_file pv_kind uv_kind orders b)),
          index_file pv_kind uv_kind orders b,
        )
  unfolding dump_merged
  dump_merged-index_file {ix} s =
      let pvs = images pv_kind orders.pv_entries in
      let uvs = images uv_kind orders.uv_entries in
      let start : List ℕ = replicate front_size 0 in
      let merge = merge_image b orders.dict_entries in
      let end = merge_start pv_kind uv_kind orders b in
      let pv_map = pv_offsets pv_kind uv_kind orders b in
      let uv_map = uv_offsets pv_kind uv_kind orders b in
      let kept : length merge % 2 ^ 64 ≡ length merge = mod-eq_of_lt (omega (arith, s.small)) in
      let on_merge = λ (uv : Dumping).
        UvMergeBitmap.Files.dump b orders.dict_entries uv.out >>= λ written.
        some (finish_dump uv pv_map written) in
      let on_uv = λ (pv : Dumping).
        dump_each UvBidBitmap.dump orders.uv_entries (record pv { offset_map = [] }) >>= λ uv.
        UvMergeBitmap.Files.dump b orders.dict_entries uv.out >>= λ written.
        some (finish_dump uv pv.offset_map written) in
      ap (λ o. o >>= on_uv)
        (dump_each-images pv_kind orders.pv_entries orders.pv_entries front_size [] start s.pv_found
          (omega (arith, s.small)))
      ∙ ap (λ o. o >>= on_merge)
          (dump_each-images uv_kind orders.uv_entries orders.uv_entries
            (uv_start pv_kind uv_kind orders b) [] (start ++ pvs) s.uv_found
            (omega (arith, s.small)))
      ∙ ap
          (λ o. o >>= λ written. some (
            finish_dump
              (record { offset = end; offset_map = uv_map; out = some (start ++ pvs ++ uvs) })
              pv_map written))
          (dump-merge_image b orders.dict_entries (start ++ pvs ++ uvs) s.merged_fits)
      ∙ ap (λ n. some (write_front pv_map uv_map end n (start ++ pvs ++ uvs ++ merge))) kept
      ∙ ap some (
          write_front-fronted pv_map uv_map end (length merge) (start ++ pvs ++ uvs ++ merge)
            (pv_offsets-fit pv_kind uv_kind orders b s) (uv_offsets-fit pv_kind uv_kind orders b s)
            s.pv_short s.uv_short s.small)
      ∙ ap (λ n. some (pos n, index_file pv_kind uv_kind orders b))
          (sym (
            (index_file-IsFront pv_kind uv_kind orders b s).same_length
            ∙ length-unfronted pv_kind uv_kind orders b s))

  pub dump-index_file :
      {ix : Index}
      → IsStorable pv_kind uv_kind orders b ix
      → dump true true orders ix
        ≡ some (
          pos (length (index_file pv_kind uv_kind orders b)),
          some (index_file pv_kind uv_kind orders b),
        )
  unfolding dump
  dump-index_file {ix} s =
      rw (s.has_merged)
        (ap (λ o. o >>= λ (code, file). some (code, some file)) (dump_merged-index_file s))
