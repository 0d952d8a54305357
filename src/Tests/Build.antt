-- ===== src/Tests/Build.antt =====
-- The theorems on the builder at a few samples.
use high_dimensional_flow_re.Base.{ℕ, ◌≡◌, Option, some, List, [], ◌∷◌, ◌++◌}
use high_dimensional_flow_re.Base.Text.{codes}
use high_dimensional_flow_re.Base.Maps.{Map}
use high_dimensional_flow_re.Index.{Index}
use high_dimensional_flow_re.Builder.{Sample, cut}
use high_dimensional_flow_re.Builder.Regions.{IsCut, cut-IsCut}
use high_dimensional_flow_re.Base.{true, ◌<◌, arith, refl, All, all_below}
use high_dimensional_flow_re.Base.Maps.{put}
use high_dimensional_flow_re.StringExt.{split, split_from}
use high_dimensional_flow_re.TargetMap.{load, load_line, load_lines, get_size}
use high_dimensional_flow_re.Builder.{merge_samples, build_index}
use high_dimensional_flow_re.UvMergeBitmap.{number_samples, number_sample, number_found}
use high_dimensional_flow_re.UvMergeBitmap.Merge.{IsSampled}
use high_dimensional_flow_re.Builder.Made.{IsSource}
use high_dimensional_flow_re.Builder.Filled.{AllStorable}
use high_dimensional_flow_re.Builder.Whole.{
  MergedFrom, targets_of, merged_of, build_index-AllStorable,
}

cut-IsCut_example : IsCut (codes "1101081102") (cut (codes "1101081102"))
cut-IsCut_example = cut-IsCut (codes "1101081102")

-- The call that adds a bitmap notes the psid of its run.
abbrev note : List ℕ → ℕ → List (List ℕ) → List ℕ → Index → Option Index
note psid info targets bids index =
    some (record index { pv_map = index.pv_map ++ ((psid, Option.none) ∷ []) })

abbrev infos : Map ℕ
infos = (codes "A", 1) ∷ (codes "B", 2) ∷ []

abbrev samples : List Sample
samples =
    record { psid = codes "A"; targets = 1 ∷ []; bid = 5 }
    ∷ record { psid = codes "A"; targets = 2 ∷ []; bid = 6 }
    ∷ record { psid = codes "B"; targets = []; bid = 7 }
    ∷ []

abbrev no_index : Index
no_index = record { pv_map = []; uv_map = []; uv_merge_map = Option.none }

all_below-All : (h : ℕ) (xs : List ℕ) → all_below h xs ≡ true → All (λ x. x < h) xs
all_below-All h [] e = tt
all_below-All h (x ∷ xs) e = (ground (arith, e), all_below-All h xs (ground (arith, e)))

abbrev pub conf : List (List ℕ)
conf = codes "1\tmale\tmale\t0" ∷ []

-- A sample of the ad position "A" with the target "male" and the bid 5.
abbrev pub sample_line : List ℕ
sample_line = codes "s\tmale\tA\t\t\t\t\t5\t"

abbrev pub no_float : List ℕ → ℕ
no_float field = 0

pub sample_line-IsSource :
    IsSource (get_size (targets_of true 1 1 no_float (some conf))) 10 (sample_line ∷ [])
unfolding load load_lines load_line put split split_from
sample_line-IsSource = record {
  texts = (record { short = omega arith; bytes = all_below-All 256 sample_line refl }, tt);
  some_target = omega arith;
  bounded = omega arith;
  few = omega arith;
  small = omega arith;
}

-- The visitor "u" with the ad position "A".
abbrev pub visitor_line : List ℕ
visitor_line = codes "u\tA"

pub visitors-IsSampled :
    IsSampled
      (merged_of true 1 1 no_float (targets_of true 1 1 no_float (some conf)) (visitor_line ∷ []))
unfolding merge_samples split split_from number_samples number_sample number_found
visitors-IsSampled = record { few = omega arith; few_psids = omega arith; small = omega arith }

-- 10 requests, 8 views, and those of the 24 hours.
abbrev hours : List ℕ
hours = codes "1,1,1,1,1,1,1,1,1,1,1,1,1,1,1,1,1,1,1,1,1,1,1,1"

abbrev pub info_line : List ℕ
info_line = codes "A\t10\t8\t\t" ++ (hours ++ (codes "\t" ++ (hours ++ (codes "\t" ++ hours))))

build_index-AllStorable_example :
    (ix : Index) × (build_index true 1 1 no_float
        (some conf)
        (some (sample_line ∷ []))
        (some (info_line ∷ []))
        (some (sample_line ∷ []))
        (some (info_line ∷ []))
        (some (visitor_line ∷ []))
      ≡ some (some ix))
    × AllStorable (get_size (targets_of true 1 1 no_float (some conf))) 10 ix
    × MergedFrom true 1 1 no_float
        (targets_of true 1 1 no_float (some conf))
        true
        (some (visitor_line ∷ []))
        ix
build_index-AllStorable_example =
    build_index-AllStorable true 1 1 no_float 10 conf (some (sample_line ∷ []))
      (some (info_line ∷ [])) (some (sample_line ∷ [])) (some (info_line ∷ []))
      (some (visitor_line ∷ [])) (λ field. omega arith) sample_line-IsSource sample_line-IsSource
      visitors-IsSampled
