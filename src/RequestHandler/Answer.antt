-- ===== src/RequestHandler/Answer.antt =====
-- `GetTarget` and `Count` together, as `Process` of src/request_handler.cc runs them.
use high_dimensional_flow_re.Base.{
  ℕ, ◌*◌, ◌≤◌, ◌<◌, ◌≡◌, ◌≢◌, ◌⊎◌, inl, inr, refl, ◌∙◌, true, false, Option, none, some, List, [],
  ◌∷◌, arith, ltb, leb, ◌==◌, if◌then◌else◌, length, get_or, All, all_below, all_lists_below,
}
use high_dimensional_flow_re.Base.Bytes.{IsByte}
use high_dimensional_flow_re.Base.Sums.{sum_over, sum_over_ext}
use high_dimensional_flow_re.Bitmap.Mask.{mask_bit}
use high_dimensional_flow_re.Bitmap.Valid.{IsValid}
use high_dimensional_flow_re.BidBitmap.{BidBitmap, Result}
use high_dimensional_flow_re.BidBitmap.Tally.{IsMask, IsPriced, selected_sum, count-IsTally}
use high_dimensional_flow_re.BidBitmap.Faults.{count-none}
use high_dimensional_flow_re.RequestHandler.{target_count, get_target}
use high_dimensional_flow_re.RequestHandler.Target.{has_any, has_each}
use high_dimensional_flow_re.RequestHandler.Groups.{
  IsBuffer, NoneEmpty, Selects, get_target-Selects,
}

-- The sum of a weight of the bids over the samples that have a target of every group.
abbrev pub matching_sum : (ℕ → ℕ) → BidBitmap → List (List ℕ) → ℕ
matching_sum weight b groups =
    sum_over (λ c. if has_each b.bitmap groups c then weight (get_or b.bids c 0) else 0) 0 b.size

-- The numbers of a query: of the samples that have a target of every group, how many there are,
-- the sum of their bids, how many the bid wins, how many have no bid, and how many have one.
pub record IsAnswer (b : BidBitmap) (groups : List (List ℕ)) (bid : ℕ) (buf : List ℕ)
    (result : Option (Result × List ℕ)) : Type 0 where
  pub tally : Result
  pub out : List ℕ
  pub returns : result ≡ some (tally, out)
  pub same_length : length out ≡ length buf
  pub bytes : All IsByte out
  pub targets : tally.target_num ≡ matching_sum (λ p. 1) b groups
  pub bid_total : tally.bid_sum ≡ matching_sum (λ p. p) b groups
  pub wins : tally.win_num ≡ matching_sum (λ p. if leb p bid then 1 else 0) b groups
  pub zeros : tally.zero_num ≡ matching_sum (λ p. if p == 0 then 1 else 0) b groups
  pub priced : tally.bid_num ≡ matching_sum (λ p. if ltb 0 p then 1 else 0) b groups

-- What a query may ask of a bitmap: rows that the bitmap has, no empty group, and a group at
-- all unless the samples fill their words.
pub record IsQuery (b : BidBitmap) (groups : List (List ℕ)) : Type 0 where
  pub known : all_lists_below b.height groups ≡ true
  pub filled : NoneEmpty groups
  pub some_group : (groups ≢ []) ⊎ (b.size ≡ 8 * b.width)

module _ {b : BidBitmap} (v : IsValid b.bitmap) (v' : IsPriced b) where
  -- No column behind the samples has a target.
  has_any-spare :
      (g : List ℕ) (c : ℕ)
      → all_below b.height g ≡ true
      → b.size ≤ c
      → c < 8 * b.width
      → has_any b.bitmap g c ≡ false
  has_any-spare [] c below low high = refl
  has_any-spare (t ∷ ts) c below low high =
      ground
        (arith, v.spare t c (ground arith) low high, has_any-spare ts c (ground arith) low high)

  has_each-spare :
      (groups : List (List ℕ)) (c : ℕ)
      → IsQuery b groups
      → b.size ≤ c
      → c < 8 * b.width
      → has_each b.bitmap groups c ≡ false
  has_each-spare [] c q low high = elim q.some_group [
    | inl h ↦ absurd (h refl)
    | inr full ↦ absurd (omega arith)
  ]
  has_each-spare (g ∷ gs) c q low high =
      ground (arith, q.known, has_any-spare g c (ground (arith, q.known)) low high)

  module _ {groups : List (List ℕ)} (q : IsQuery b groups) {buf : List ℕ}
      (room : IsBuffer b.bitmap buf) (bid : ℕ) where
    selection : Selects b.bitmap (has_each b.bitmap groups) buf (get_target b.bitmap groups buf)
    selection = get_target-Selects v groups buf q.filled q.known room

    selection-IsMask : IsMask b selection.out
    selection-IsMask = record {
      long = omega (arith, selection.same_length, room.halves, room.row_fits);
      bytes = selection.bytes;
      spare = λ c low high. selection.selected c high ∙ rw (has_each-spare groups c q low high);
    }

    selected-matching :
        (weight : ℕ → ℕ) → selected_sum weight b selection.out ≡ matching_sum weight b groups
    selected-matching weight =
        sum_over_ext (λ c. mask_bit selection.out c * weight (get_or b.bids c 0))
          (λ c. if has_each b.bitmap groups c then weight (get_or b.bids c 0) else 0) 0 b.size
          (λ c p h. ground (arith, selection.selected c (omega (arith, v.holds))))

    -- A query is answered, without a fault, by the numbers of exactly the samples that have a
    -- target of every group. Its groups hold rows of the bitmap, none is empty, and there is one,
    -- unless the samples fill their words; the bitmap is valid and has a 16-bit bid for each sample,
    -- and the compute buffer has room.
    pub target_count-IsAnswer : IsAnswer b groups bid buf (target_count b groups bid buf)
    unfolding target_count
    target_count-IsAnswer =
        let t = count-IsTally bid v' selection-IsMask in
        record {
          tally = t.tally;
          out = selection.out;
          returns = rw (selection.returns, t.returns);
          same_length = selection.same_length;
          bytes = selection.bytes;
          targets = t.targets ∙ selected-matching (λ p. 1);
          bid_total = t.bid_total ∙ selected-matching (λ p. p);
          wins = t.wins ∙ selected-matching (λ p. if leb p bid then 1 else 0);
          zeros = t.zeros ∙ selected-matching (λ p. if p == 0 then 1 else 0);
          priced = t.priced ∙ selected-matching (λ p. if ltb 0 p then 1 else 0);
        }

  -- Without a group, and with columns behind the samples, the count reads past the bids. The bitmap
  -- is valid and has a 16-bit bid for each sample, and the compute buffer has room.
  pub target_count-none :
      {buf : List ℕ} (bid : ℕ)
      → IsBuffer b.bitmap buf
      → b.size < 8 * b.width
      → target_count b [] bid buf ≡ none
  unfolding target_count
  target_count-none {buf} bid room spare =
      let s = get_target-Selects v [] buf tt refl room in
      rw (
        s.returns,
        count-none b s.out bid b.size s.bytes (omega (arith, v'.room)) spare
            (omega (arith, v'.one_each)) (s.selected b.size spare),
      )
