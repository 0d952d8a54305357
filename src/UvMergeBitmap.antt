-- ===== src/UvMergeBitmap.antt =====
-- src/uv_merge_bitmap.cc and include/uv_merge_bitmap.h: which sampled visitors saw which ad
-- positions. A psid is the string of its bytes; a number of type `int` that the dictionary or a
-- column holds stands as its word of 32 bits.
pub mod Numbering
pub mod Columns
pub mod Merge
pub mod Union
pub mod Files
use high_dimensional_flow_re.Base.{
  ℕ, zero, suc, ◌+◌, ◌-◌, ◌^◌, Bool, true, false, Option, none, some, List, [], ◌∷◌, ◌++◌, ltb,
  if◌then◌else◌, ◌>>=◌, u32, length, get_elem?, get_or,
}
use high_dimensional_flow_re.Base.Ints.{ℤ, pos, negsuc}
use high_dimensional_flow_re.Base.Maps.{Dict, find}
use high_dimensional_flow_re.Bitmap.{Bitmap, Operand, row, at, or_words, count_row}
use high_dimensional_flow_re.Bitmap
use high_dimensional_flow_re.RequestHandler.{memset}

pub record UvMergeBitmap : Type 0 where
  pub bitmap : Bitmap
  pub open bitmap use *
  pub sample_uv : List ℕ
  pub psid_dict : Dict

abbrev pub clear : UvMergeBitmap → UvMergeBitmap
clear b = record { bitmap = Bitmap.clear b.bitmap; sample_uv = []; psid_dict = [] }

-- The body of the inner loop of `Generate`, after `find`: the number of a psid, which a new psid
-- is given.
unfoldable pub number_found : Dict → List ℕ → Option ℕ → ℕ × Dict
number_found dict psid (some r) = (r, dict)
number_found dict psid none = (u32 (length dict), dict ++ ((psid, u32 (length dict)) ∷ []))

-- The inner loop: the column of a sample.
unfoldable pub number_sample : Dict → List (List ℕ) → List ℕ × Dict
number_sample dict [] = ([], dict)
number_sample dict (psid ∷ psids) =
    let (r, dict') = number_found dict psid (find dict psid) in
    let (column, last) = number_sample dict' psids in (r ∷ column, last)

-- The outer loop: the columns.
unfoldable pub number_samples : Dict → List (List (List ℕ)) → List (List ℕ) × Dict
number_samples dict [] = ([], dict)
number_samples dict (psids ∷ samples) =
    let (column, dict') = number_sample dict psids in
    let (columns, last) = number_samples dict' samples in (column ∷ columns, last)

-- The loop that counts `n` rows from `i` on.
pub count_rows : Bitmap → ℕ → ℕ → Option (List ℕ)
count_rows b zero i = some []
count_rows b (suc n) i = do uv ← count_row b i; uvs ← count_rows b n (i + 1); some (uv ∷ uvs)

-- What follows the base class in `Generate`.
pub count_all : UvMergeBitmap → Bool × Bitmap → Option (Bool × UvMergeBitmap)
count_all b (true, bitmap) = count_rows bitmap bitmap.height 0 >>= λ uvs.
    some (true, record b { bitmap = bitmap; sample_uv = uvs })
count_all b (false, bitmap) = some (false, record b { bitmap = bitmap })

pub generate : List (List (List ℕ)) → UvMergeBitmap → Option (Bool × UvMergeBitmap)
generate samples b =
    let (columns, dict) = number_samples [] samples in
    Bitmap.generate columns (u32 (length dict)) (clear b).bitmap
    >>= count_all (record (clear b) { psid_dict = dict })

-- The loop of `Union` over the rows from the third on.
pub or_rows : Bitmap → ℕ → List ℕ → List ℕ → Option (List ℕ)
or_rows b p [] buf = some buf
or_rows b p (r ∷ rs) buf = or_words b (row r) (at p) p buf >>= or_rows b p rs

-- `Union` into the front of a buffer.
pub union : Bitmap → List ℕ → List ℕ → Option (List ℕ)
union b [] buf = memset 0 b.width buf
union b (r ∷ []) buf = or_words b (row r) (row r) 0 buf
union b (r ∷ s ∷ rs) buf = or_words b (row r) (row s) 0 buf >>= or_rows b 0 rs

-- A word of 32 bits, read as a signed number.
abbrev pub int32 : ℕ → ℤ
int32 x = if ltb x (2 ^ 31) then pos x else negsuc (2 ^ 32 - x - 1)

pub get_row_id : UvMergeBitmap → List ℕ → ℤ
get_row_id b psid = elim (find b.psid_dict psid) [ none ↦ negsuc 0 | some r ↦ int32 r ]

pub get_row_uv : UvMergeBitmap → ℕ → ℤ
get_row_uv b row_id =
    if ltb row_id (length b.sample_uv) then int32 (get_or b.sample_uv row_id 0) else negsuc 0
