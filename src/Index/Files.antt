-- ===== src/Index/Files.antt =====
-- `DumpOffsetMap`, `LoadOffsetMap`, `Dump` and `Load` of src/index.cc.
use high_dimensional_flow_re.Base.{
  ℕ, zero, suc, ◌+◌, ◌*◌, ◌^◌, Bool, true, false, ◌||◌, ◌&&◌, Option, none, some, List, [], ◌∷◌,
  ◌++◌, ltb, ◌==◌, if◌then◌else◌, ◌>>=◌, u32, u64, length, replicate,
}
use high_dimensional_flow_re.Base.Ints.{ℤ, pos, negsuc, int64, add_size, is_negative}
use high_dimensional_flow_re.Base.Decimal.{low_bits}
use high_dimensional_flow_re.Base.Maps.{Map, same, insert_new}
use high_dimensional_flow_re.Base.Files.{Loaded, drop, encode, read_word}
use high_dimensional_flow_re.Base.Seek.{overwrite}
use high_dimensional_flow_re.Base.Entries.{Reading, read_entries, encode_entries}
use high_dimensional_flow_re.UvBidBitmap.{UvBidBitmap, new_uv_bid_bitmap}
use high_dimensional_flow_re.PvBidBitmap.{PvBidBitmap, new_pv_bid_bitmap}
use high_dimensional_flow_re.UvMergeBitmap.{UvMergeBitmap}
use high_dimensional_flow_re.UvBidBitmap
use high_dimensional_flow_re.PvBidBitmap
use high_dimensional_flow_re.UvMergeBitmap.Files
use high_dimensional_flow_re.Index.{Index, clear, new_uv_merge_bitmap}

abbrev pub pv_offset_map_size : ℕ
pv_offset_map_size = 64 * 1024

abbrev pub uv_offset_map_size : ℕ
uv_offset_map_size = 64 * 1024

-- The offsets are a map in the order of its keys, which compares their bytes.
abbrev pub before : List ℕ → List ℕ → Bool
before [] [] = false
before [] (y ∷ ys) = true
before (x ∷ xs) [] = false
before (x ∷ xs) (y ∷ ys) = ltb x y || (x == y && before xs ys)

-- `map[key] = v`.
unfoldable pub put_sorted : Map ℕ → List ℕ → ℕ → Map ℕ
put_sorted [] key v = (key, v) ∷ []
put_sorted ((k, w) ∷ m) key v =
    let rest = put_sorted m key v in
    if same k key
    then (k, v) ∷ m
    else (if before key k then (key, v) ∷ (k, w) ∷ m else (k, w) ∷ rest)

-- The bytes that `DumpOffsetMap` writes, and the size that it returns for them.
unfoldable pub offset_bytes : Map ℕ → List ℕ
offset_bytes m = encode 4 (u32 (length m)) ++ encode_entries 8 m

unfoldable pub entries_size : ℤ → Map ℕ → ℤ
entries_size file_size [] = file_size
entries_size file_size ((key, offset) ∷ m) =
    entries_size (add_size file_size (4 + u32 (length key) + 8)) m

abbrev pub dump_offset_map : Map ℕ → ℤ × List ℕ
dump_offset_map m = (entries_size (add_size (pos 0) 4) m, offset_bytes m)

-- `LoadOffsetMap`, once its size is read.
abbrev pub load_counted : Bool × ℕ × List ℕ → Loaded Reading
load_counted (true, size, rest) = read_entries 8 size (record { key = []; entries = [] }) rest
load_counted (false, size, rest) = (pos 1, record { key = []; entries = [] }, rest)

unfoldable pub load_offset_map : List ℕ → Loaded Reading
load_offset_map file = load_counted (read_word 4 0 file)

-- The state of the loops of `Dump`: the next offset, the map of offsets, and the file.
pub record Dumping : Type 0 where
  pub offset : ℕ
  pub offset_map : Map ℕ
  pub out : Option (List ℕ)

-- What follows the `Dump` of a bitmap. Its size is kept in a `uint64_t`, which is never below 0;
-- so the branch for a failed `Dump` is not taken.
abbrev pub dumped : Dumping → List ℕ → ℤ × Option (List ℕ) → Dumping
dumped s psid (size, out) = record {
  offset = u64 (s.offset + low_bits 64 size);
  offset_map = put_sorted s.offset_map psid s.offset;
  out = out;
}

module _ {B : Type 0} where
  -- The loop over the bitmaps, in the order in which their container is passed through.
  unfoldable pub dump_each :
      (B → Option (List ℕ) → Option (ℤ × Option (List ℕ)))
      → Map (Option B)
      → Dumping
      → Option Dumping
  dump_each dump [] s = some s
  dump_each dump ((psid, none) ∷ entries) s = dump_each dump entries s
  dump_each dump ((psid, some b) ∷ entries) s =
      dump b s.out >>= λ written. dump_each dump entries (dumped s psid written)

  -- The body of the loop of `Load`, after the bitmap's `Load`.
  abbrev pub keep_loaded : Map (Option B) → List ℕ → Loaded B → Map (Option B)
  keep_loaded m psid (pos zero, b, file) = insert_new m psid (some b)
  keep_loaded m psid (pos (suc n), b, file) = m
  keep_loaded m psid (negsuc n, b, file) = m

  -- The loop over the offsets; `fseek` refuses an offset below 0, and `memory` is whether `new` finds
  -- memory. The order of the offsets does not show in the map.
  unfoldable pub load_each :
      Bool → (List ℕ → Loaded B) → List ℕ → Map ℕ → Map (Option B) → ℤ × Map (Option B)
  load_each memory load file [] m = (pos 0, m)
  load_each memory load file ((psid, offset) ∷ offsets) m = elim (ltb offset (2 ^ 63)) [
    | false ↦ load_each memory load file offsets m
    | true ↦ elim memory [
      | false ↦ (negsuc 4, m)
      | true ↦ load_each true load file offsets (keep_loaded m psid (load (drop offset file)))
    ]
  ]

-- The end of `Dump`: the maps of the offsets and the offset of the visitors' bitmap go to the front
-- of the file.
unfoldable pub write_front : Map ℕ → Map ℕ → ℕ → ℕ → List ℕ → ℤ × List ℕ
write_front pv_offsets uv_offsets offset size file =
    let (pv_size, pv_bytes) = dump_offset_map pv_offsets in
    let (uv_size, uv_bytes) = dump_offset_map uv_offsets in
    let file₁ = overwrite 0 pv_bytes file in
    let file₂ = overwrite pv_offset_map_size uv_bytes file₁ in
    let file₃ = overwrite (pv_offset_map_size + uv_offset_map_size) (encode 8 offset) file₂ in
    if is_negative pv_size
    then (negsuc 4, file₁)
    else (if is_negative uv_size then (negsuc 5, file₂) else (int64 (u64 (offset + size)), file₃))

abbrev pub front_size : ℕ
front_size = pv_offset_map_size + uv_offset_map_size + 8

-- The orders in which the containers are passed through.
pub record Orders : Type 0 where
  pub pv_entries : Map (Option PvBidBitmap)
  pub uv_entries : Map (Option UvBidBitmap)
  pub dict_entries : Map ℕ

abbrev pub finish_dump : Dumping → Map ℕ → ℤ × Option (List ℕ) → ℤ × List ℕ
finish_dump s pv_offsets (size, none) = (negsuc 3, [])
finish_dump s pv_offsets (size, some file) =
    write_front pv_offsets s.offset_map s.offset (low_bits 64 size) file

-- `Dump` with a bitmap of visitors, into a file that has been opened.
unfoldable pub dump_merged : Orders → UvMergeBitmap → Option (ℤ × List ℕ)
dump_merged orders b = do
  let start : Dumping = record {
    offset = front_size;
    offset_map = [];
    out = some (replicate front_size 0);
  }
  pv ← dump_each PvBidBitmap.dump orders.pv_entries start
  uv ← dump_each UvBidBitmap.dump orders.uv_entries (record pv { offset_map = [] })
  written ← Files.dump b orders.dict_entries uv.out
  some (finish_dump uv pv.offset_map written)

-- `cleared` and `opened` are whether the file opens the first and the second time. The file of the
-- result is `none` where nothing was written to it.
unfoldable pub dump : (cleared opened : Bool) → Orders → Index → Option (ℤ × Option (List ℕ))
dump cleared opened orders ix = elim ix.uv_merge_map [
  | none ↦ some (negsuc 2, none)
  | some b ↦
      if cleared
      then (if opened
          then (dump_merged orders b >>= λ (code, file). some (code, some file))
          else some (negsuc 1, some []))
      else some (negsuc 0, none)
]

-- `fresh n` is what an array of `n` bytes holds before it is written.
module _ (memory : Bool) (procs threads : ℕ) (fresh : ℕ → List ℕ) where
  abbrev pub load_pv : List ℕ → Loaded PvBidBitmap
  load_pv file = PvBidBitmap.load fresh (new_pv_bid_bitmap procs threads) (some file)

  abbrev pub load_uv : List ℕ → Loaded UvBidBitmap
  load_uv file = UvBidBitmap.load fresh (new_uv_bid_bitmap procs threads) (some file)

  -- The last part of `Load`.
  abbrev pub keep_merged : Index → Loaded UvMergeBitmap → ℤ × Index
  keep_merged ix (pos zero, b, file) = (pos 0, record ix { uv_merge_map = some b })
  keep_merged ix (pos (suc n), b, file) = (negsuc 5, ix)
  keep_merged ix (negsuc n, b, file) = (negsuc 5, ix)

  unfoldable pub load_merged : List ℕ → ℕ → Index → ℤ × Index
  load_merged file offset ix =
      let b = new_uv_merge_bitmap memory procs threads in
      if ltb offset (2 ^ 63)
      then (if memory
          then keep_merged ix (Files.load fresh b (some (drop offset file)))
          else (negsuc 4, ix))
      else (negsuc 2, ix)

  abbrev pub load_uvs : List ℕ → Map ℕ → ℕ → Index → ℤ × Map (Option UvBidBitmap) → ℤ × Index
  load_uvs file uv_offsets offset ix (pos n, m) = load_merged file offset (record ix { uv_map = m })
  load_uvs file uv_offsets offset ix (negsuc n, m) = (negsuc n, record ix { uv_map = m })

  abbrev pub load_pvs : List ℕ → Map ℕ → ℕ → Index → ℤ × Map (Option PvBidBitmap) → ℤ × Index
  load_pvs file uv_offsets offset ix (pos n, m) =
      load_uvs file uv_offsets offset (record ix { pv_map = m })
        (load_each memory load_uv file uv_offsets ix.uv_map)
  load_pvs file uv_offsets offset ix (negsuc n, m) = (negsuc n, record ix { pv_map = m })

  -- Once the maps of offsets are read, and the offset of the visitors' bitmap.
  abbrev pub load_bitmaps : List ℕ → Map ℕ → Map ℕ → Index → Bool × ℕ × List ℕ → ℤ × Index
  load_bitmaps file pv_offsets uv_offsets ix (true, offset, rest) =
      load_pvs file uv_offsets offset ix (load_each memory load_pv file pv_offsets ix.pv_map)
  load_bitmaps file pv_offsets uv_offsets ix (false, offset, rest) = (negsuc 3, ix)

  abbrev pub load_second : List ℕ → Map ℕ → Index → Loaded Reading → ℤ × Index
  load_second file pv_offsets ix (pos zero, uv, rest) =
      load_bitmaps file pv_offsets uv.entries ix
        (read_word 8 0 (drop (pv_offset_map_size + uv_offset_map_size) file))
  load_second file pv_offsets ix (pos (suc n), uv, rest) = (negsuc 1, ix)
  load_second file pv_offsets ix (negsuc n, uv, rest) = (negsuc 1, ix)

  abbrev pub load_first : List ℕ → Index → Loaded Reading → ℤ × Index
  load_first file ix (pos zero, pv, rest) =
      load_second file pv.entries ix (load_offset_map (drop pv_offset_map_size file))
  load_first file ix (pos (suc n), pv, rest) = (negsuc 1, ix)
  load_first file ix (negsuc n, pv, rest) = (negsuc 1, ix)

  unfoldable pub load : Option (List ℕ) → Index → ℤ × Index
  load none ix = (negsuc 0, clear ix)
  load (some file) ix = load_first file (clear ix) (load_offset_map file)
