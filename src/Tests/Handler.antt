-- ===== src/Tests/Handler.antt =====
-- The theorems on bids and queries at a small bitmap.
use high_dimensional_flow_re.Base.{
  ℕ, ◌≡◌, refl, inl, true, ltb, ◌==◌, ◌||◌, check_below, check_below_sound, none, List, [], ◌∷◌,
  arith, All-replicate, replicate, length-replicate,
}
use high_dimensional_flow_re.Base.Bytes.{IsByte}
use high_dimensional_flow_re.Bitmap.Mask.{mask_bit}
use high_dimensional_flow_re.BidBitmap.{BidBitmap, count}
use high_dimensional_flow_re.BidBitmap.Tally.{IsMask, IsPriced, IsTally, count-IsTally}
use high_dimensional_flow_re.RequestHandler.{get_target, target_count}
use high_dimensional_flow_re.RequestHandler.Target.{has_each}
use high_dimensional_flow_re.RequestHandler.Groups.{IsBuffer, Selects, get_target-Selects}
use high_dimensional_flow_re.RequestHandler.Answer.{
  IsQuery, IsAnswer, target_count-IsAnswer, target_count-none,
}
use high_dimensional_flow_re.Tests.Bitmaps.{two_rows, two_rows-IsValid, two_selected}

abbrev pub priced_rows : BidBitmap
priced_rows = record { bitmap = two_rows; bids = 0 ∷ 30 ∷ 500 ∷ [] }

pub priced_rows-IsPriced : IsPriced priced_rows
priced_rows-IsPriced = omega arith

abbrev pub buffer : List ℕ
buffer = replicate 20000000 0

pub buffer-IsBuffer : IsBuffer two_rows buffer
buffer-IsBuffer = record {
  halves = length-replicate 20000000 0;
  row_fits = omega arith;
  bytes = All-replicate IsByte 20000000 0 (omega arith);
}

get_target-Selects_example :
    Selects two_rows
      (has_each two_rows ((0 ∷ []) ∷ (0 ∷ 1 ∷ []) ∷ []))
      buffer
      (get_target two_rows ((0 ∷ []) ∷ (0 ∷ 1 ∷ []) ∷ []) buffer)
get_target-Selects_example =
    get_target-Selects two_rows-IsValid ((0 ∷ []) ∷ (0 ∷ 1 ∷ []) ∷ []) buffer (ground arith) refl
      buffer-IsBuffer

groups-IsQuery : IsQuery priced_rows ((0 ∷ []) ∷ (0 ∷ 1 ∷ []) ∷ [])
groups-IsQuery = record { known = refl; filled = ground arith; some_group = inl (λ e. cc) }

target_count-IsAnswer_example :
    IsAnswer priced_rows
      ((0 ∷ []) ∷ (0 ∷ 1 ∷ []) ∷ [])
      100
      buffer
      (target_count priced_rows ((0 ∷ []) ∷ (0 ∷ 1 ∷ []) ∷ []) 100 buffer)
target_count-IsAnswer_example =
    target_count-IsAnswer two_rows-IsValid priced_rows-IsPriced groups-IsQuery buffer-IsBuffer 100

target_count-none_example : target_count priced_rows [] 100 buffer ≡ none
target_count-none_example =
    target_count-none two_rows-IsValid priced_rows-IsPriced 100 buffer-IsBuffer (omega arith)

no_spare : check_below 64 (λ c. ltb c 3 || mask_bit two_selected c == 0) ≡ true
unfolding check_below
no_spare = refl

two_selected-IsMask : IsMask priced_rows two_selected
two_selected-IsMask = record {
  long = omega arith;
  bytes = omega arith;
  spare = λ c low high.
      let tested =
        check_below_sound 64 (λ c. ltb c 3 || mask_bit two_selected c == 0) c no_spare high in
      ground (arith, tested);
}

count-IsTally_example : IsTally priced_rows two_selected 100 (count priced_rows two_selected 100)
count-IsTally_example = count-IsTally 100 priced_rows-IsPriced two_selected-IsMask
