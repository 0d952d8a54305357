-- ===== src/Tests/Merge.antt =====
-- The theorems on visitors and on step functions at small inputs.
use high_dimensional_flow_re.Base.{
  ℕ, ◌≡◌, refl, false, some, List, [], ◌∷◌, arith, ltb, length, All, get_elem?,
}
use high_dimensional_flow_re.Base.Bytes.{IsByte}
use high_dimensional_flow_re.Bitmap.{default_bitmap}
use high_dimensional_flow_re.RequestHandler.Groups.{Selects, IsBuffer}
use high_dimensional_flow_re.RequestHandler.Target.{has_any}
use high_dimensional_flow_re.UvMergeBitmap.{
  UvMergeBitmap, union, generate, number_samples, number_sample, number_found,
}
use high_dimensional_flow_re.UvMergeBitmap.Merge.{IsMerged, IsSampled, generate-IsMerged}
use high_dimensional_flow_re.UvMergeBitmap.Union.{union-Selects}
use high_dimensional_flow_re.RequestHandler.UvMerge.{
  merge_counts, merge_counts_lem, merged_visitors, visitors_sum,
}
use high_dimensional_flow_re.StepFunction.{Doubles, get_value, set_values, set_splits}
use high_dimensional_flow_re.StepFunction.Search.{IsOrder, count_below, get_value_lem}
use high_dimensional_flow_re.Tests.Bitmaps.{two_rows, two_rows-IsValid}
use high_dimensional_flow_re.Tests.Handler.{buffer, buffer-IsBuffer}

union-Selects_example :
    Selects two_rows (has_any two_rows (0 ∷ 1 ∷ [])) buffer (union two_rows (0 ∷ 1 ∷ []) buffer)
union-Selects_example = union-Selects (0 ∷ 1 ∷ []) buffer two_rows-IsValid refl buffer-IsBuffer

abbrev pub two_visitors : List (List (List ℕ))
two_visitors = ((65 ∷ []) ∷ (66 ∷ []) ∷ []) ∷ ((65 ∷ []) ∷ []) ∷ []

abbrev pub empty_merge : UvMergeBitmap
empty_merge = record { bitmap = default_bitmap; sample_uv = []; psid_dict = [] }

pub two_visitors-IsSampled : IsSampled two_visitors
unfolding number_samples number_sample number_found
two_visitors-IsSampled = record { few = omega arith; few_psids = omega arith; small = omega arith }

generate-IsMerged_example : IsMerged two_visitors (generate two_visitors empty_merge)
generate-IsMerged_example = generate-IsMerged two_visitors empty_merge two_visitors-IsSampled

abbrev pub merged : UvMergeBitmap
merged = (generate-IsMerged two_visitors empty_merge two_visitors-IsSampled).made

pub merged_width : merged.width ≡ 8
merged_width = (generate-IsMerged two_visitors empty_merge two_visitors-IsSampled).width

merged-IsBuffer : IsBuffer merged.bitmap buffer
merged-IsBuffer = record {
  halves = buffer-IsBuffer.halves;
  row_fits = omega (arith, merged_width);
  bytes = buffer-IsBuffer.bytes;
}

merge_counts_lem_example :
    (mask : List ℕ) × (merge_counts merged ((65 ∷ []) ∷ (66 ∷ []) ∷ []) buffer
      ≡ some (
        merged_visitors two_visitors ((65 ∷ []) ∷ (66 ∷ []) ∷ []),
        visitors_sum two_visitors ((65 ∷ []) ∷ (66 ∷ []) ∷ []),
        mask,
      ))
    × (length mask ≡ length buffer)
    × All IsByte mask
merge_counts_lem_example =
    merge_counts_lem (generate-IsMerged two_visitors empty_merge two_visitors-IsSampled)
      ((65 ∷ []) ∷ (66 ∷ []) ∷ []) buffer (omega (arith, merged_width)) merged-IsBuffer

abbrev pub whole_numbers : Doubles
whole_numbers = record { Double = ℕ; lt = ltb; zero_double = 0 }

pub whole_numbers-irreflexive : (a : ℕ) → ltb a a ≡ false
whole_numbers-irreflexive a = ground arith

pub whole_numbers-IsOrder : IsOrder whole_numbers
whole_numbers-IsOrder = record { asym = λ a b h. ground arith; between = λ a b c h. ground arith }

get_value_lem_example :
    get_value whole_numbers 25 (
      set_splits whole_numbers
        (40 ∷ 10 ∷ 20 ∷ [])
        (set_values whole_numbers (1 ∷ 2 ∷ 3 ∷ 4 ∷ []) (record { values = []; splits = [] })))
    ≡ get_elem? (1 ∷ 2 ∷ 3 ∷ 4 ∷ []) (count_below whole_numbers 25 (40 ∷ 10 ∷ 20 ∷ []))
get_value_lem_example =
    get_value_lem whole_numbers whole_numbers-IsOrder (1 ∷ 2 ∷ 3 ∷ 4 ∷ []) (40 ∷ 10 ∷ 20 ∷ [])
      (record { values = []; splits = [] }) 25 refl (omega arith)
