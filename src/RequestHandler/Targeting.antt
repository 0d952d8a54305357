-- ===== src/RequestHandler/Targeting.antt =====
-- `EncodeTargeting` of src/request_handler.cc: from the names of the targets to their numbers.
use high_dimensional_flow_re.Base.{
  ℕ, ◌*◌, ◌<◌, ◌≡◌, ◌≢◌, ◌⊎◌, refl, ap, ◌∙◌, Bool, true, false, not, ◌&&◌, ◌||◌, List, [], ◌∷◌,
  arith, all_below, all_lists_below,
}
use high_dimensional_flow_re.Base.Ints.{ℤ, pos, negsuc}
use high_dimensional_flow_re.Bitmap.{Bitmap}
use high_dimensional_flow_re.BidBitmap.{BidBitmap}
use high_dimensional_flow_re.RequestHandler.Target.{has, has_any, has_each}
use high_dimensional_flow_re.RequestHandler.Groups.{NoneEmpty}
use high_dimensional_flow_re.RequestHandler.Answer.{IsQuery}

-- `if (idx >= 0) array.push_back(idx);`
unfoldable pub push_index : ℤ → List ℕ → List ℕ
push_index (pos idx) array = idx ∷ array
push_index (negsuc n) array = array

-- `if (!array.empty()) targetings_.push_back(array);`
unfoldable pub push_group : List ℕ → List (List ℕ) → List (List ℕ)
push_group [] groups = groups
push_group (t ∷ ts) groups = (t ∷ ts) ∷ groups

-- `query` is `GetTargetId` of the shared memory.
module _ (query : List ℕ → ℤ) where
  unfoldable pub encode_group : List (List ℕ) → List ℕ
  encode_group [] = []
  encode_group (name ∷ names) = push_index (query name) (encode_group names)

  unfoldable pub encode_targeting : List (List (List ℕ)) → List (List ℕ)
  encode_targeting [] = []
  encode_targeting (names ∷ targetings) =
      push_group (encode_group names) (encode_targeting targetings)

  -- A name has a number; a name of the group has one.
  abbrev pub knows : ℤ → Bool
  knows (pos n) = true
  knows (negsuc n) = false

  abbrev pub knows_any : List (List ℕ) → Bool
  knows_any [] = false
  knows_any (name ∷ names) = knows (query name) || knows_any names

  module _ (b : Bitmap) where
    -- The sample has the target of the name; of a name of the group; and of a name of each group in
    -- which a name is known.
    abbrev pub has_number : ℤ → ℕ → Bool
    has_number (pos t) c = has b t c
    has_number (negsuc n) c = false

    abbrev pub has_name : List (List ℕ) → ℕ → Bool
    has_name [] c = false
    has_name (name ∷ names) c = has_number (query name) c || has_name names c

    abbrev pub has_targeting : List (List (List ℕ)) → ℕ → Bool
    has_targeting [] c = true
    has_targeting (names ∷ targetings) c =
        (not (knows_any names) || has_name names c) && has_targeting targetings c

    push_index-has :
        (id : ℤ) (array : List ℕ) (c : ℕ)
        → has_any b (push_index id array) c ≡ (has_number id c || has_any b array c)
    unfolding push_index
    push_index-has (pos t) array c = refl
    push_index-has (negsuc n) array c = refl

    encode_group-has :
        (names : List (List ℕ)) (c : ℕ) → has_any b (encode_group names) c ≡ has_name names c
    unfolding encode_group
    encode_group-has [] c = refl
    encode_group-has (name ∷ names) c =
        push_index-has (query name) (encode_group names) c
        ∙ ap (λ t. has_number (query name) c || t) (encode_group-has names c)

    push_group-has :
        (array : List ℕ) (groups : List (List ℕ)) (known : Bool) (c : ℕ)
        → (known ≡ false → array ≡ [])
        → (known ≡ true → array ≢ [])
        → has_each b (push_group array groups) c
          ≡ ((not known || has_any b array c) && has_each b groups c)
    unfolding push_group
    push_group-has [] groups false c h k = refl
    push_group-has [] groups true c h k = absurd (k refl refl)
    push_group-has (t ∷ ts) groups false c h k = absurd (ground (arith, h refl))
    push_group-has (t ∷ ts) groups true c h k = refl

  push_index-known :
      (id : ℤ) (array : List ℕ) (more : Bool)
      → (more ≡ false → array ≡ [])
      → (more ≡ true → array ≢ [])
      → ((knows id || more) ≡ false → push_index id array ≡ [])
        × ((knows id || more) ≡ true → push_index id array ≢ [])
  unfolding push_index
  push_index-known (pos t) array more h k = (λ e. ground arith, λ e e'. ground arith)
  push_index-known (negsuc n) array more h k = (h, k)

  encode_group-known :
      (names : List (List ℕ))
      → (knows_any names ≡ false → encode_group names ≡ [])
        × (knows_any names ≡ true → encode_group names ≢ [])
  unfolding encode_group
  encode_group-known [] = (λ e. refl, λ e. absurd (ground arith))
  encode_group-known (name ∷ names) =
      let rest = encode_group-known names in
      push_index-known (query name) (encode_group names) (knows_any names) rest.0 rest.1

  -- The encoded groups select a sample exactly where it has, of every group in which a name is
  -- known, a target that is named: unknown names, and groups of them only, are passed over.
  pub has_each-encode_targeting :
      (b : Bitmap) (targetings : List (List (List ℕ))) (c : ℕ)
      → has_each b (encode_targeting targetings) c ≡ has_targeting b targetings c
  unfolding encode_targeting
  has_each-encode_targeting b [] c = refl
  has_each-encode_targeting b (names ∷ targetings) c =
      let known = encode_group-known names in
      push_group-has b (encode_group names) (encode_targeting targetings) (knows_any names) c
        known.0 known.1
      ∙ ap (λ t. (not (knows_any names) || t) && has_each b (encode_targeting targetings) c)
          (encode_group-has b names c)
      ∙ ap (λ t. (not (knows_any names) || has_name b names c) && t)
          (has_each-encode_targeting b targetings c)

  push_group-NoneEmpty :
      (array : List ℕ) (groups : List (List ℕ))
      → NoneEmpty groups
      → NoneEmpty (push_group array groups)
  unfolding push_group
  push_group-NoneEmpty [] groups h = h
  push_group-NoneEmpty (t ∷ ts) groups h = ((λ e. ground arith), h)

  encode_targeting-NoneEmpty :
      (targetings : List (List (List ℕ))) → NoneEmpty (encode_targeting targetings)
  unfolding encode_targeting
  encode_targeting-NoneEmpty [] = tt
  encode_targeting-NoneEmpty (names ∷ targetings) =
      push_group-NoneEmpty (encode_group names) (encode_targeting targetings)
        (encode_targeting-NoneEmpty targetings)

  module _ (height : ℕ) (rows : (name : List ℕ) (n : ℕ) → query name ≡ pos n → n < height) where
    push_index-below :
        (id : ℤ) (array : List ℕ)
        → ((n : ℕ) → id ≡ pos n → n < height)
        → all_below height array ≡ true
        → all_below height (push_index id array) ≡ true
    unfolding push_index
    push_index-below (pos n) array h e = ground (arith, h n refl)
    push_index-below (negsuc n) array h e = e

    encode_group-below : (names : List (List ℕ)) → all_below height (encode_group names) ≡ true
    unfolding encode_group
    encode_group-below [] = refl
    encode_group-below (name ∷ names) =
        push_index-below (query name) (encode_group names) (rows name) (encode_group-below names)

    push_group-below :
        (array : List ℕ) (groups : List (List ℕ))
        → all_below height array ≡ true
        → all_lists_below height groups ≡ true
        → all_lists_below height (push_group array groups) ≡ true
    unfolding push_group
    push_group-below [] groups e h = h
    push_group-below (t ∷ ts) groups e h = ground arith

    encode_targeting-below :
        (targetings : List (List (List ℕ)))
        → all_lists_below height (encode_targeting targetings) ≡ true
    unfolding encode_targeting
    encode_targeting-below [] = refl
    encode_targeting-below (names ∷ targetings) =
        push_group-below (encode_group names) (encode_targeting targetings)
          (encode_group-below names) (encode_targeting-below targetings)

  -- What `EncodeTargeting` makes is a query that `GetTarget` and `Count` answer: where every number
  -- of a target is a row of the bitmap, and a group is left or the samples fill their words.
  pub encode_targeting-IsQuery :
      (b : BidBitmap) (targetings : List (List (List ℕ)))
      → ((name : List ℕ) (n : ℕ) → query name ≡ pos n → n < b.height)
      → (encode_targeting targetings ≢ []) ⊎ (b.size ≡ 8 * b.width)
      → IsQuery b (encode_targeting targetings)
  encode_targeting-IsQuery b targetings rows some_group = record {
    known = encode_targeting-below b.height rows targetings;
    filled = encode_targeting-NoneEmpty targetings;
    some_group = some_group;
  }
