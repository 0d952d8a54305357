-- ===== src/UvMergeBitmap/Union.antt =====
-- `Union` of include/uv_merge_bitmap.h.
use mathlib.Core.Path.{fun_ext}
use high_dimensional_flow_re.Base.{
  ℕ, ◌-◌, ◌/◌, ◌%◌, ◌≡◌, refl, ap, true, List, [], ◌∷◌, arith, ◌>>=◌, get_or, all_below,
}
use high_dimensional_flow_re.Base.Bits.{bit-zero}
use high_dimensional_flow_re.Bitmap.{Bitmap, at, row, or_words}
use high_dimensional_flow_re.Bitmap.Valid.{IsValid}
use high_dimensional_flow_re.RequestHandler.{memset, fill, ptr1, or_more, first_group}
use high_dimensional_flow_re.RequestHandler.Fill.{length-fill, All-fill, fill-inside}
use high_dimensional_flow_re.RequestHandler.Target.{has_any}
use high_dimensional_flow_re.RequestHandler.Groups.{IsBuffer, Selects, first_group-Selects}
use high_dimensional_flow_re.UvMergeBitmap.{union, or_rows}

-- The rows from the third on are taken as `GetTarget` takes the targets of its first group.
or_rows-eq-or_more : (b : Bitmap) (rs buf : List ℕ) → or_rows b 0 rs buf ≡ or_more b ptr1 rs buf
unfolding or_rows or_more
or_rows-eq-or_more b [] buf = refl
or_rows-eq-or_more b (r ∷ rs) buf =
    ap (λ k. or_words b (row r) (at 0) 0 buf >>= k) (fun_ext λ t. or_rows-eq-or_more b rs t)

union-eq-first_group :
    (b : Bitmap) (r : ℕ) (rs buf : List ℕ) → union b (r ∷ rs) buf ≡ first_group b (r ∷ rs) buf
unfolding union first_group
union-eq-first_group b r [] buf = refl
union-eq-first_group b r (s ∷ rs) buf =
    ap (λ k. or_words b (row r) (row s) 0 buf >>= k) (fun_ext λ t. or_rows-eq-or_more b rs t)

-- On a valid bitmap, `Union` returns, and leaves at the front of the buffer the mask of the samples
-- that are in one of the rows. The rows are those of the bitmap, and the buffer has its full length
-- and room for a row in each half.
pub union-Selects :
    {b : Bitmap} (rows buf : List ℕ)
    → IsValid b
    → all_below b.height rows ≡ true
    → IsBuffer b buf
    → Selects b (has_any b rows) buf (union b rows buf)
unfolding union memset
union-Selects {b} [] buf v below room = record {
  out = fill 0 0 b.width buf;
  returns = ground (arith, room.halves, room.row_fits);
  same_length = length-fill 0 0 b.width buf;
  bytes = All-fill 0 0 b.width buf (omega arith) room.bytes;
  selected = λ c hc.
      let filled : get_or (fill 0 0 b.width buf) (c / 8) 0 ≡ 0 =
        fill-inside 0 0 b.width buf (c / 8) (omega arith) (omega arith)
          (omega (arith, room.halves, room.row_fits)) in
      rw filled (bit-zero (7 - c % 8));
}
union-Selects (r ∷ rs) buf v below room =
    rw union-eq-first_group (first_group-Selects v (r ∷ rs) buf (λ e. ground arith) below room)
