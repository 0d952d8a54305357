-- ===== src/Tests/Files.antt =====
-- The theorems on files at a small bitmap.
use high_dimensional_flow_re.Base.{
  ℕ, ◌≡◌, ◌<◌, ◌^◌, refl, some, List, [], ◌∷◌, ◌++◌, arith, length, replicate, length-replicate,
  length-append,
}
use high_dimensional_flow_re.Base.Ints.{pos}
use high_dimensional_flow_re.Bitmap.Files.{IsHeader, length-image}
use high_dimensional_flow_re.BidBitmap.Files.{load-dump_bids}
use high_dimensional_flow_re.UvBidBitmap.{UvBidBitmap}
use high_dimensional_flow_re.UvBidBitmap.Files.{load-dump_uv}
use high_dimensional_flow_re.PvBidBitmap.{PvBidBitmap}
use high_dimensional_flow_re.PvBidBitmap.Files.{IsHourly, load-dump_pv}
use high_dimensional_flow_re.UvMergeBitmap.{UvMergeBitmap}
use high_dimensional_flow_re.UvMergeBitmap.Files.{merge_image, length-merge_image, load-dump_merge}
use high_dimensional_flow_re.Base.Maps.{Dict, find}
use high_dimensional_flow_re.Base.Entries.{encode_entry, encode_entries, length-encode_entry}
use high_dimensional_flow_re.UvMergeBitmap
use high_dimensional_flow_re.BidBitmap
use high_dimensional_flow_re.UvBidBitmap
use high_dimensional_flow_re.PvBidBitmap
use high_dimensional_flow_re.Tests.Bitmaps.{two_rows, two_rows-IsValid}
use high_dimensional_flow_re.Tests.Handler.{priced_rows}

abbrev pub zeros : ℕ → List ℕ
zeros n = replicate n 0

pub zeros-length : (n : ℕ) → length (zeros n) ≡ n
zeros-length n = length-replicate n 0

two_rows-IsHeader : IsHeader two_rows.header
two_rows-IsHeader = omega arith

priced_rows-IsStorable : BidBitmap.Files.IsStorable priced_rows
priced_rows-IsStorable = record {
  valid = two_rows-IsValid;
  header_fits = two_rows-IsHeader;
  some_cells = omega arith;
  one_each = refl;
  short = omega arith;
}

abbrev pub uv_rows : UvBidBitmap
uv_rows = record { base = priced_rows; psid = 80 ∷ 49 ∷ []; request = 900; uv = 70 }

pub uv_rows-IsStorable : UvBidBitmap.Files.IsStorable uv_rows
uv_rows-IsStorable = record {
  base = priced_rows-IsStorable;
  psid_short = omega arith;
  psid_bytes = omega arith;
  request_fits = omega arith;
  uv_fits = omega arith;
}

abbrev hours : List ℕ
hours =
    1 ∷ 2 ∷ 3 ∷ 4 ∷ 5 ∷ 6 ∷ 7 ∷ 8 ∷ 9 ∷ 10 ∷ 11 ∷ 12 ∷ 13 ∷ 14 ∷ 15 ∷ 16 ∷ 17 ∷ 18 ∷ 19 ∷ 20 ∷ 21
    ∷ 22 ∷ 23 ∷ 24 ∷ []

hours-IsHourly : IsHourly hours
hours-IsHourly = record { whole_day = refl; fits = omega arith }

abbrev pub pv_rows : PvBidBitmap
pv_rows = record {
  base = priced_rows;
  psid = 80 ∷ 49 ∷ [];
  request = 900;
  pv = 70;
  hourly_request = hours;
  hourly_pv = hours;
  hourly_ctr = hours;
}

pub pv_rows-IsStorable : PvBidBitmap.Files.IsStorable pv_rows
pv_rows-IsStorable = record {
  base = priced_rows-IsStorable;
  psid_short = omega arith;
  psid_bytes = omega arith;
  request_fits = omega arith;
  pv_fits = omega arith;
  requests = hours-IsHourly;
  pvs = hours-IsHourly;
  ctrs = hours-IsHourly;
}

load-dump_pv_example :
    (bytes : List ℕ) × (PvBidBitmap.dump pv_rows (some (1 ∷ []))
      ≡ some (pos (length bytes), some ((1 ∷ []) ++ bytes)))
    × (PvBidBitmap.load zeros pv_rows (some (bytes ++ (7 ∷ []))) ≡ (pos 0, pv_rows, 7 ∷ []))
load-dump_pv_example =
    load-dump_pv zeros zeros-length pv_rows pv_rows (1 ∷ []) (7 ∷ []) pv_rows-IsStorable

abbrev pub two_entries : Dict
two_entries = (65 ∷ [], 0) ∷ (66 ∷ [], 1) ∷ []

abbrev pub merge_rows : UvMergeBitmap
merge_rows = record { bitmap = two_rows; sample_uv = 2 ∷ 1 ∷ []; psid_dict = two_entries }

pub merge_rows-short : length (merge_image merge_rows two_entries) < 2 ^ 40
unfolding encode_entries
merge_rows-short = omega (
  arith,
  length-merge_image merge_rows two_entries,
  length-image two_rows,
  length-encode_entry 4 (65 ∷ []) 0 (omega arith),
  length-encode_entry 4 (66 ∷ []) 1 (omega arith),
  length-append (encode_entry 4 (65 ∷ []) 0) (encode_entry 4 (66 ∷ []) 1 ++ []),
  length-append (encode_entry 4 (66 ∷ []) 1) [],
)

pub merge_rows-IsStorable : UvMergeBitmap.Files.IsStorable merge_rows two_entries
merge_rows-IsStorable = record {
  valid = two_rows-IsValid;
  header_fits = two_rows-IsHeader;
  some_cells = omega arith;
  each_row = refl;
  uvs_fit = omega arith;
  each_entry = refl;
  entries_fit = omega arith;
  same_entries = λ psid. refl;
  small = omega (arith, merge_rows-short);
}

load-dump_merge_example :
    (bytes : List ℕ) × (loaded : UvMergeBitmap) × (UvMergeBitmap.Files.dump merge_rows two_entries
        (some (1 ∷ []))
      ≡ some (pos (length bytes), some ((1 ∷ []) ++ bytes)))
    × (UvMergeBitmap.Files.load zeros merge_rows (some (bytes ++ (7 ∷ [])))
        ≡ (pos 0, loaded, 7 ∷ []))
    × (loaded.bitmap ≡ two_rows)
    × (loaded.sample_uv ≡ 2 ∷ 1 ∷ [])
    × ((psid : List ℕ) → find loaded.psid_dict psid ≡ find two_entries psid)
load-dump_merge_example =
    load-dump_merge zeros zeros-length merge_rows merge_rows two_entries (1 ∷ []) (7 ∷ [])
      merge_rows-IsStorable
