-- ===== src/Tests/Store.antt =====
-- The theorems on the files of the index at two ad positions.
use high_dimensional_flow_re.Base.{
  ℕ, ◌≤◌, ◌≡◌, refl, some, true, List, [], ◌∷◌, arith, length, length-append,
}
use high_dimensional_flow_re.Base.Ints.{pos}
use high_dimensional_flow_re.Base.Entries.{encode_entry, encode_entries, length-encode_entry}
use high_dimensional_flow_re.UvBidBitmap.{UvBidBitmap}
use high_dimensional_flow_re.PvBidBitmap.{PvBidBitmap}
use high_dimensional_flow_re.PvBidBitmap.Files.{pv_image-short}
use high_dimensional_flow_re.UvBidBitmap.Files.{uv_image-short}
use high_dimensional_flow_re.Index.{Index}
use high_dimensional_flow_re.Index.Files.{Orders, dump, load}
use high_dimensional_flow_re.Index.Files.{put_sorted, offset_bytes}
use high_dimensional_flow_re.Index.Stored.{Stored}
use high_dimensional_flow_re.Index.Kinds.{pv_stored, uv_stored}
use high_dimensional_flow_re.Index.Dumped.{IsStorable}
use high_dimensional_flow_re.Index.Restore.{IsRestored, load-dump_index}
use high_dimensional_flow_re.Tests.Files.{
  zeros, zeros-length, pv_rows, pv_rows-IsStorable, uv_rows, uv_rows-IsStorable, two_entries,
  merge_rows, merge_rows-IsStorable, merge_rows-short,
}
use high_dimensional_flow_re.Index.Offsets.{length-offset_bytes}

abbrev pv_kind : Stored PvBidBitmap
pv_kind = pv_stored 1 1 zeros zeros-length

abbrev uv_kind : Stored UvBidBitmap
uv_kind = uv_stored 1 1 zeros zeros-length

abbrev whole_index : Index
whole_index = record {
  pv_map = (80 ∷ [], some pv_rows) ∷ [];
  uv_map = (80 ∷ [], some uv_rows) ∷ [];
  uv_merge_map = some merge_rows;
}

abbrev orders : Orders
orders = record {
  pv_entries = whole_index.pv_map;
  uv_entries = whole_index.uv_map;
  dict_entries = two_entries;
}

one_offset-short : (offset : ℕ) → length (offset_bytes (put_sorted [] (80 ∷ []) offset)) ≤ 65536
unfolding put_sorted encode_entries
one_offset-short offset = omega (
  arith,
  length-offset_bytes ((80 ∷ [], offset) ∷ []),
  length-encode_entry 8 (80 ∷ []) offset (omega arith),
  length-append (encode_entry 8 (80 ∷ []) offset) [],
)

whole_index-IsStorable : IsStorable pv_kind uv_kind orders merge_rows whole_index
whole_index-IsStorable = record {
  has_merged = refl;
  merged_fits = merge_rows-IsStorable;
  pv_found = ((pv_rows-IsStorable, refl), tt);
  pv_keys = omega arith;
  same_pv = λ psid. refl;
  pv_short = one_offset-short _;
  uv_found = ((uv_rows-IsStorable, refl), tt);
  uv_keys = omega arith;
  same_uv = λ psid. refl;
  uv_short = one_offset-short _;
  small = omega (
    arith,
    pv_image-short pv_rows-IsStorable,
    uv_image-short uv_rows-IsStorable,
    merge_rows-short,
    length-append (pv_kind.image pv_rows) [],
    length-append (uv_kind.image uv_rows) [],
  );
}

load-dump_index_example :
    (file : List ℕ) × (dump true true orders whole_index ≡ some (pos (length file), some file))
    × IsRestored 1 1 zeros zeros-length whole_index merge_rows
        (load true 1 1 zeros (some file) whole_index)
load-dump_index_example =
    load-dump_index 1 1 zeros zeros-length orders merge_rows whole_index whole_index
      whole_index-IsStorable
