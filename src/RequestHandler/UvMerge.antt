-- ===== src/RequestHandler/UvMerge.antt =====
-- `GetUvMergeRate` of src/request_handler.cc: the visitors of a set of ad positions together, and
-- the sum of the visitors of each.
use high_dimensional_flow_re.Base.{
  ℕ, ◌+◌, ◌-◌, ◌*◌, ◌^◌, ◌≤◌, ◌<◌, ◌≡◌, refl, ap, ◌∙◌, Bool, true, false, ◌||◌, Option, some, List,
  [], ◌∷◌, arith, if◌then◌else◌, ◌>>=◌, length, get_or, All, all_below, Bool-cases, inl, inr,
}
use high_dimensional_flow_re.Base.Ints.{ℤ, pos, negsuc}
use high_dimensional_flow_re.Base.Maps.{elem_string}
use high_dimensional_flow_re.Base.Bytes.{IsByte}
use high_dimensional_flow_re.Base.Sums.{sum_over, sum_over-add, sum_over-zero, sum_over_ext}
use high_dimensional_flow_re.Bitmap.{count}
use high_dimensional_flow_re.Bitmap.Mask.{mask_bit}
use high_dimensional_flow_re.Bitmap.Count.{count-mask_bit}
use high_dimensional_flow_re.RequestHandler.Target.{has_any}
use high_dimensional_flow_re.RequestHandler.Groups.{IsBuffer}
use high_dimensional_flow_re.UvMergeBitmap.{UvMergeBitmap, union, get_row_id, get_row_uv}
use high_dimensional_flow_re.UvMergeBitmap.Merge.{IsMerged, visitors}
use high_dimensional_flow_re.UvMergeBitmap.Union.{union-Selects}

-- The body of the loop over the psids, for the row and the further rows with their sum. The sum
-- is a `double`, which is exact for whole numbers below 2 ^ 53.
pub add_row : UvMergeBitmap → ℤ → List ℕ × ℕ → List ℕ × ℕ
add_row b (negsuc n) (row_ids, sum) = (row_ids, sum)
add_row b (pos row_id) (row_ids, sum) = elim (get_row_uv b row_id) [
  | pos row_uv ↦ (row_id ∷ row_ids, row_uv + sum)
  | negsuc n ↦ (row_id ∷ row_ids, sum)
]

-- The loop: the rows of the psids, in their order, and the sum of their visitors.
pub rows_of : UvMergeBitmap → List (List ℕ) → List ℕ × ℕ
rows_of b [] = ([], 0)
rows_of b (psid ∷ psids) = add_row b (get_row_id b psid) (rows_of b psids)

-- `GetUvMergeRate` up to the division: the count under the union, the sum, and the buffer.
pub merge_counts : UvMergeBitmap → List (List ℕ) → List ℕ → Option (ℕ × ℕ × List ℕ)
merge_counts b psids buf = do
  let (row_ids, sum) = rows_of b psids
  mask ← union b.bitmap row_ids buf
  merged ← count b.bitmap mask
  some (merged, sum, mask)

-- A sample holds one of the psids.
abbrev pub elem_any : List (List ℕ) → List (List ℕ) → Bool
elem_any [] sample = false
elem_any (psid ∷ psids) sample = elem_string psid sample || elem_any psids sample

abbrev pub visitors_sum : List (List (List ℕ)) → List (List ℕ) → ℕ
visitors_sum samples [] = 0
visitors_sum samples (psid ∷ psids) = visitors samples psid + visitors_sum samples psids

-- How many samples hold one of the psids.
abbrev pub merged_visitors : List (List (List ℕ)) → List (List ℕ) → ℕ
merged_visitors samples psids =
    sum_over (λ c. if elem_any psids (get_or samples c []) then 1 else 0) 0 (length samples)

module _ {samples : List (List (List ℕ))} {result : Option (Bool × UvMergeBitmap)}
    (m : IsMerged samples result) where
  abbrev b : UvMergeBitmap
  b = m.made

  -- A psid without a row has no visitor.
  unknown :
      (psid : List ℕ) (n : ℕ)
      → get_row_id b psid ≡ negsuc n
      → ((c : ℕ) → elem_string psid (get_or samples c []) ≡ false)
  unknown psid n e c = elim (Bool-cases (elem_string psid (get_or samples c []))) [
    | inr absent ↦ absent
    | inl held ↦ let (r, e') = m.known c psid held in absurd (ground (arith, e, e'))
  ]

  -- What the loop collects.
  record IsCollected (psids : List (List ℕ)) (rows : List ℕ) (sum : ℕ) : Type 0 where
    total : sum ≡ visitors_sum samples psids
    inside : all_below b.height rows ≡ true
    each :
        (c : ℕ)
        → c < length samples
        → has_any b.bitmap rows c ≡ elem_any psids (get_or samples c [])
    spare : (c : ℕ) → b.size ≤ c → c < 8 * b.width → has_any b.bitmap rows c ≡ false

  add_row-IsCollected :
      (psid : List ℕ) (psids : List (List ℕ)) (rows : List ℕ) (sum : ℕ) (id : ℤ)
      → get_row_id b psid ≡ id
      → IsCollected psids rows sum
      → IsCollected (psid ∷ psids) (add_row b id (rows, sum)).0 (add_row b id (rows, sum)).1
  unfolding add_row
  add_row-IsCollected psid psids rows sum (negsuc n) e v =
      let absent = unknown psid n e in
      record {
        total =
            let nobody : visitors samples psid ≡ 0 =
              sum_over-zero (λ c. if elem_string psid (get_or samples c []) then 1 else 0) 0
                (length samples) (λ c p q. rw (absent c) refl) in
            omega (arith, v.total, nobody);
        inside = v.inside;
        each = λ c h. rw (absent c) (v.each c h);
        spare = v.spare;
      }
  add_row-IsCollected psid psids rows sum (pos r) e v =
      let uv = m.uvs psid r e in
      rw (uv, add_row)
        (record {
          total = omega (arith, v.total);
          inside = ground (arith, v.inside, m.inside psid r e);
          each = λ c h. ground (arith, v.each c h, m.bits psid r c e h);
          spare = λ c p q. ground (arith, v.spare c p q, m.valid.spare r c (m.inside psid r e) p q);
        })

  rows_of-IsCollected :
      (psids : List (List ℕ)) → IsCollected psids (rows_of b psids).0 (rows_of b psids).1
  unfolding rows_of
  rows_of-IsCollected [] = record {
    total = refl;
    inside = refl;
    each = λ c h. refl;
    spare = λ c p q. refl;
  }
  rows_of-IsCollected (psid ∷ psids) =
      add_row-IsCollected psid psids (rows_of b psids).0 (rows_of b psids).1 (get_row_id b psid)
        refl (rows_of-IsCollected psids)

  -- With the bitmap that `Generate` has made of the samples, `GetUvMergeRate` comes, before its
  -- division, to two numbers: the number of samples that hold one of the psids, and the sum of the
  -- numbers of samples that hold each psid, in which a psid that no sample holds counts nothing.
  -- The compute buffer keeps its length and holds bytes. The columns fit an `int`, and the compute
  -- buffer has room.
  pub merge_counts_lem :
      (psids : List (List ℕ)) (buf : List ℕ)
      → 8 * b.width < 2 ^ 31
      → IsBuffer b.bitmap buf
      → (mask : List ℕ) × (merge_counts b psids buf
          ≡ some (merged_visitors samples psids, visitors_sum samples psids, mask))
        × (length mask ≡ length buf)
        × All IsByte mask
  unfolding merge_counts
  merge_counts_lem psids buf fits room =
      let rows = (rows_of b psids).0 in
      let v = rows_of-IsCollected psids in
      let s = union-Selects rows buf m.valid v.inside room in
      let n = length samples in
      let counted =
        count-mask_bit b.bitmap s.out fits
          (omega (arith, s.same_length, room.halves, room.row_fits)) s.bytes in
      let tail = sum_over-zero (mask_bit s.out) n (8 * b.width - n) (λ c p q.
        s.selected c (omega (arith, m.valid.holds, m.size))
        ∙ rw (v.spare c (omega (arith, m.size)) (omega (arith, m.valid.holds, m.size))) refl) in
      let front =
        sum_over_ext (mask_bit s.out) (λ c. if elem_any psids (get_or samples c []) then 1 else 0) 0
          n
          (λ c p q.
            s.selected c (omega (arith, m.valid.holds, m.size))
            ∙ ap (λ (t : Bool). if t then 1 else 0) (v.each c (omega arith))) in
      let whole : n + (8 * b.width - n) ≡ 8 * b.width = omega (arith, m.valid.holds, m.size) in
      let split = sum_over-add (mask_bit s.out) 0 n (8 * b.width - n) n (omega arith) in
      let merged : sum_over (mask_bit s.out) 0 (8 * b.width) ≡ merged_visitors samples psids =
        rw (← whole) (split ∙ omega (arith, tail, front)) in
      (
        s.out,
        ap (λ o. o >>= λ mask. count b.bitmap mask >>= λ c. some (c, (rows_of b psids).1, mask))
              s.returns
            ∙ ap (λ o. o >>= λ c. some (c, (rows_of b psids).1, s.out)) counted
            ∙ rw (merged, v.total) refl,
        s.same_length,
        s.bytes,
      )
