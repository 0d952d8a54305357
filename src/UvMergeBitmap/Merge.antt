-- ===== src/UvMergeBitmap/Merge.antt =====
-- `Generate`, `GetRowId`, `GetRowUv` and `Union` of src/uv_merge_bitmap.cc and
-- include/uv_merge_bitmap.h together.
use native.Mathlib.Nat.{mod-eq_of_lt}
use high_dimensional_flow_re.Base.{
  ℕ, zero, suc, ◌+◌, ◌-◌, ◌*◌, ◌^◌, ◌≤◌, ◌<◌, ◌≡◌, ◌≢◌, refl, ap, ◌∙◌, Bool, true, Option, none,
  some, List, [], ◌∷◌, arith, ltb, ◌==◌, ==_iff, Bool-cases, Option-cases, inl, inr, if◌then◌else◌,
  ◌>>=◌, u32, length, get_or,
}
use high_dimensional_flow_re.Base.Ints.{pos}
use high_dimensional_flow_re.Base.Maps.{Dict, find, elem_string}
use high_dimensional_flow_re.Base.Sums.{
  sum_over, sum_over-add, sum_over-le, sum_over-zero, sum_over_ext,
}
use high_dimensional_flow_re.Bitmap.{Bitmap, Header, row_width, count_row}
use high_dimensional_flow_re.Bitmap
use high_dimensional_flow_re.Bitmap.Mask.{row_bit}
use high_dimensional_flow_re.Bitmap.Valid.{IsValid}
use high_dimensional_flow_re.Bitmap.Generate.{generate-IsGenerated}
use high_dimensional_flow_re.Bitmap.Count.{count_row_lem}
use high_dimensional_flow_re.UvMergeBitmap.{
  UvMergeBitmap, clear, number_samples, count_rows, count_all, generate, get_row_id, get_row_uv,
}
use high_dimensional_flow_re.UvMergeBitmap.Numbering.{numbered}
use high_dimensional_flow_re.UvMergeBitmap.Columns.{
  below-AllPlaces, elem-AllPlaces, length-AllPlaces, find-AllPlaces,
}

-- How many samples hold a psid.
abbrev pub visitors : List (List (List ℕ)) → List ℕ → ℕ
visitors samples psid =
    sum_over (λ c. if elem_string psid (get_or samples c []) then 1 else 0) 0 (length samples)

-- What `Generate` promises: it returns true, and in the object that it leaves every psid of a sample
-- has a row, which holds exactly the samples with that psid, and its number of visitors.
pub record IsMerged (samples : List (List (List ℕ))) (result : Option (Bool × UvMergeBitmap))
    : Type 0 where
  pub made : UvMergeBitmap
  pub returns : result ≡ some (true, made)
  pub valid : IsValid made.bitmap
  pub size : made.size ≡ length samples
  pub width : made.width ≡ row_width (length samples)
  pub known :
      (c : ℕ) (psid : List ℕ)
      → elem_string psid (get_or samples c []) ≡ true
      → (r : ℕ) × (get_row_id made psid ≡ pos r)
  pub inside : (psid : List ℕ) (r : ℕ) → get_row_id made psid ≡ pos r → r < made.height
  pub bits :
      (psid : List ℕ) (r c : ℕ)
      → get_row_id made psid ≡ pos r
      → c < length samples
      → row_bit made.bitmap r c ≡ (if elem_string psid (get_or samples c []) then 1 else 0)
  pub uvs :
      (psid : List ℕ) (r : ℕ)
      → get_row_id made psid ≡ pos r
      → get_row_uv made r ≡ pos (visitors samples psid)

-- The loop over the rows returns the count of each.
count_rows_lem :
    {b : Bitmap}
    → IsValid b
    → 8 * b.width < 2 ^ 31
    → (n i : ℕ) → i + n ≤ b.height
    → (uvs : List ℕ) × (count_rows b n i ≡ some uvs)
      × (length uvs ≡ n)
      × ((r : ℕ)
          → i ≤ r
          → r < i + n
          → get_or uvs (r - i) 0 ≡ sum_over (row_bit b r) 0 (8 * b.width))
unfolding count_rows
count_rows_lem v fits zero i h = ([], refl, refl, λ r p q. absurd (omega arith))
count_rows_lem {b} v fits (suc n) i h =
    let (rest, returns, size, values) = count_rows_lem v fits n (i + 1) (omega arith) in
    let here = count_row_lem i v fits in
    let inside : ltb i b.height ≡ true = ground arith in
    (
      sum_over (row_bit b i) 0 (8 * b.width) ∷ rest,
      rw (here, inside, returns) refl,
      ap suc size,
      λ r p q. elim (Bool-cases (r == i)) [
        | inl first ↦
            let e : r ≡ i = (==_iff r i).0 first in
            let place : i - i ≡ 0 = omega arith in rw (e, place) refl
        | inr later ↦
            let place : r - i ≡ suc (r - (i + 1)) = ground arith in
            rw place (values r (ground arith) (omega arith))
      ],
    )

-- What `GetRowId` tells of the dictionary.
get_row_id-pos :
    (b : UvMergeBitmap) (psid : List ℕ) (r : ℕ)
    → ((w : ℕ) → find b.psid_dict psid ≡ some w → w < 2 ^ 31)
    → get_row_id b psid ≡ pos r
    → find b.psid_dict psid ≡ some r
unfolding get_row_id
get_row_id-pos b psid r small e = elim (Option-cases (find b.psid_dict psid)) [
  | inl missing ↦ absurd (ground (arith, rw (missing, get_row_id) at e))
  | inr (w, found) ↦ ground (arith, e, found, small w found)
]

get_row_id-known :
    (b : UvMergeBitmap) (psid : List ℕ)
    → ((w : ℕ) → find b.psid_dict psid ≡ some w → w < 2 ^ 31)
    → find b.psid_dict psid ≢ none
    → (r : ℕ) × (get_row_id b psid ≡ pos r)
unfolding get_row_id
get_row_id-known b psid small known = elim (Option-cases (find b.psid_dict psid)) [
  | inl missing ↦ absurd (known missing)
  | inr (w, found) ↦ (w, ground (arith, found, small w found))
]

get_row_uv-pos :
    (b : UvMergeBitmap) (r n : ℕ)
    → r < length b.sample_uv
    → get_or b.sample_uv r 0 ≡ n
    → n < 2 ^ 31
    → get_row_uv b r ≡ pos n
unfolding get_row_uv
get_row_uv-pos b r n inside value small = rw value (ground arith)

visitors-le :
    (samples : List (List (List ℕ))) (psid : List ℕ) → visitors samples psid ≤ length samples * 1
visitors-le samples psid =
    sum_over-le (λ c. if elem_string psid (get_or samples c []) then 1 else 0) 0 (length samples) 1
      (λ c. ground arith)

samples_fit : (n : ℕ) → n ≤ 8 * row_width n
samples_fit n = ground arith

-- The psids of the samples, each once.
abbrev pub psid_num : List (List (List ℕ)) → ℕ
psid_num samples = length (number_samples [] samples).1

-- Samples so few that no size wraps, and every count fits an `int`.
pub record IsSampled (samples : List (List (List ℕ))) : Type 0 where
  pub few : 8 * row_width (length samples) < 2 ^ 31
  pub few_psids : psid_num samples < 2 ^ 31
  pub small : row_width (length samples) * psid_num samples < 2 ^ 32

-- The bits set in a row are the samples with its psid.
row_sum :
    (b : Bitmap) (samples : List (List (List ℕ))) (psid : List ℕ) (r : ℕ)
    → IsValid b
    → b.size ≡ length samples
    → r < b.height
    → ((c : ℕ)
        → c < length samples
        → row_bit b r c ≡ (if elem_string psid (get_or samples c []) then 1 else 0))
    → sum_over (row_bit b r) 0 (8 * b.width) ≡ visitors samples psid
row_sum b samples psid r v e h bits =
    let n = length samples in
    let tail =
      sum_over-zero (row_bit b r) n (8 * b.width - n)
        (λ c p q. v.spare r c h (omega arith) (omega (arith, v.holds))) in
    let whole : n + (8 * b.width - n) ≡ 8 * b.width = omega (arith, v.holds) in
    let split = sum_over-add (row_bit b r) 0 n (8 * b.width - n) n (omega arith) in
    let front =
      sum_over_ext (row_bit b r) (λ c. if elem_string psid (get_or samples c []) then 1 else 0) 0 n
        (λ c p q. bits c (omega arith)) in
    rw (← whole) (split ∙ omega (arith, tail, front))

module _ (samples : List (List (List ℕ))) (b : UvMergeBitmap) (i : IsSampled samples) where
  abbrev columns : List (List ℕ)
  columns = (number_samples [] samples).0

  abbrev dict : Dict
  dict = (number_samples [] samples).1

  -- `Generate` returns true; then `GetRowId` knows every psid of a sample, the row of a psid holds
  -- exactly the samples with it, and `GetRowUv` of the row is their number. The samples and their
  -- psids are so few that no size wraps and that the columns fit an `int`.
  pub generate-IsMerged : IsMerged samples (generate samples b)
  unfolding generate count_all
  generate-IsMerged =
      let a = numbered samples (omega (arith, i.few_psids)) in
      let size = length-AllPlaces dict samples columns a.placed in
      let no_wrap : u32 (length dict) ≡ length dict = mod-eq_of_lt (omega (arith, i.few_psids)) in
      let below = below-AllPlaces a.numbering samples columns a.placed in
      let g =
        generate-IsGenerated columns (length dict) (clear b).bitmap
          (rw size (ground (arith, i.few))) (rw size i.small) in
      let v = g.valid below in
      let height : g.bitmap.height ≡ length dict = ap (λ (h : Header). h.height) g.head in
      let width : g.bitmap.width ≡ row_width (length columns) =
        ap (λ (h : Header). h.width) g.head in
      let fits : 8 * g.bitmap.width < 2 ^ 31 = rw (width, size) i.few in
      let (uvs, counted, uv_num, values) = count_rows_lem v fits g.bitmap.height 0 (omega arith) in
      let started : UvMergeBitmap = record (clear b) { psid_dict = dict } in
      let made : UvMergeBitmap = record { bitmap = g.bitmap; sample_uv = uvs; psid_dict = dict } in
      let small : (psid : List ℕ) (w : ℕ) → find dict psid ≡ some w → w < 2 ^ 31 =
        λ psid w e. omega (arith, a.numbering.below psid w e, i.few_psids) in
      let row_of : (psid : List ℕ) (r : ℕ)
          → get_row_id made psid ≡ pos r
          → find dict psid ≡ some r =
        λ psid r e. get_row_id-pos made psid r (small psid) e in
      let inside : (psid : List ℕ) (r : ℕ) → find dict psid ≡ some r → r < g.bitmap.height =
        λ psid r e. omega (arith, a.numbering.below psid r e, height) in
      let bits : (psid : List ℕ) (r c : ℕ)
          → find dict psid ≡ some r
          → c < length samples
          → row_bit g.bitmap r c ≡ (if elem_string psid (get_or samples c []) then 1 else 0) =
        λ psid r c e h.
          g.bits r c below (omega (arith, a.numbering.below psid r e)) (omega (arith, size))
          ∙ ap (λ (t : Bool). if t then 1 else 0)
              (elem-AllPlaces a.numbering samples columns c psid r a.placed e) in
      let sized : g.bitmap.size ≡ length samples = ap (λ (h : Header). h.size) g.head ∙ size in
      record {
        made = made;
        returns =
            ap (λ n. Bitmap.generate columns n (clear b).bitmap >>= count_all started) no_wrap
            ∙ ap (λ o. o >>= count_all started) (g.returns ∙ ap (λ t. some (t, g.bitmap)) below)
            ∙ ap
                (λ o.
                  o >>= λ uvs. some (true, record started { bitmap = g.bitmap; sample_uv = uvs }))
                counted;
        valid = v;
        size = sized;
        width = width ∙ ap row_width size;
        known = λ c psid e.
            get_row_id-known made psid (small psid)
              (find-AllPlaces dict samples columns c psid a.placed e);
        inside = λ psid r e. inside psid r (row_of psid r e);
        bits = λ psid r c e h. bits psid r c (row_of psid r e) h;
        uvs = λ psid r e.
            let found = row_of psid r e in
            let place : r - 0 ≡ r = omega arith in
            let value : get_or uvs r 0 ≡ visitors samples psid =
              rw place at (values r (omega arith) (omega (arith, inside psid r found)))
              ∙ row_sum g.bitmap samples psid r v sized (inside psid r found)
                  (λ c h. bits psid r c found h) in
            get_row_uv-pos made r (visitors samples psid)
              (omega (arith, uv_num, inside psid r found)) value
              (omega (arith, visitors-le samples psid, i.few, samples_fit (length samples)));
      }
