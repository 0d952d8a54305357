-- ===== src/StepFunction/Search.antt =====
-- The binary search of common/step_function.hpp against a count of the splits below an argument.
use native.Mathlib.Nat.{mod-eq_of_lt}
use high_dimensional_flow_re.Base.{
  ℕ, zero, suc, ◌+◌, ◌-◌, ◌/◌, ◌^◌, ◌≤◌, ◌<◌, ◌≡◌, refl, ap, ◌∙◌, true, false, ◌||◌, some, List, [],
  ◌∷◌, arith, ltb, ◌==◌, if◌then◌else◌, u32, length, get_elem?, All, All-imp, Bool-cases, inl, inr,
}
use high_dimensional_flow_re.StepFunction.{
  Doubles, StepFunction, set_values, set_splits, insert, sort, search, get_value,
}

-- A strict weak order, which `<` is on numbers that compare with each other.
pub record IsOrder (d : Doubles) : Type 0 where
  pub asym : (a b : d.Double) → d.lt a b ≡ true → d.lt b a ≡ false
  pub between : (a b c : d.Double) → d.lt a c ≡ true → (d.lt a b || d.lt b c) ≡ true

module _ (d : Doubles) where
  open d use {Double, lt}

  -- How many splits lie below an argument.
  abbrev pub count_below : Double → List Double → ℕ
  count_below x [] = 0
  count_below x (s ∷ ss) = (if lt s x then 1 else 0) + count_below x ss

  abbrev pub Sorted : List Double → Type 0
  Sorted [] = Unit {0}
  Sorted (s ∷ ss) = All (λ t. lt t s ≡ false) ss × Sorted ss

  count_below-le : (x : Double) (ss : List Double) → count_below x ss ≤ length ss
  count_below-le x [] = omega arith
  count_below-le x (s ∷ ss) = ground (arith, count_below-le x ss)

  length-insert : (s : Double) (ss : List Double) → length (insert d s ss) ≡ suc (length ss)
  unfolding insert
  length-insert s [] = refl
  length-insert s (t ∷ ts) = ground (arith, length-insert s ts)

  pub length-sort : (ss : List Double) → length (sort d ss) ≡ length ss
  unfolding sort
  length-sort [] = refl
  length-sort (s ∷ ss) = length-insert s (sort d ss) ∙ ap suc (length-sort ss)

  count_below-insert :
      (x s : Double) (ss : List Double)
      → count_below x (insert d s ss) ≡ (if lt s x then 1 else 0) + count_below x ss
  unfolding insert
  count_below-insert x s [] = refl
  count_below-insert x s (t ∷ ts) = ground (arith, count_below-insert x s ts)

  count_below-sort : (x : Double) (ss : List Double) → count_below x (sort d ss) ≡ count_below x ss
  unfolding sort
  count_below-sort x [] = refl
  count_below-sort x (s ∷ ss) =
      count_below-insert x s (sort d ss) ∙ omega (arith, count_below-sort x ss)

  -- The loop finds the place `k` where the splits stop lying below the argument.
  search_lem :
      (x : Double) (ss : List Double) (k fuel left right : ℕ)
      → ((i : ℕ) → i < length ss → (s : Double) → get_elem? ss i ≡ some s → lt s x ≡ ltb i k)
      → length ss < 2 ^ 31
      → left ≤ k
      → k ≤ right
      → right ≤ length ss
      → right - left < fuel
      → search d x ss fuel left right ≡ some k
  unfolding search
  search_lem x ss k zero left right p small lo hi fits h = absurd (omega arith)
  search_lem x ss k (suc fuel) left right p small lo hi fits h =
      let mid = u32 (left + right) / 2 in
      let no_wrap : u32 (left + right) ≡ left + right = mod-eq_of_lt (omega arith) in
      elim (Bool-cases (ltb left right)) [
        | inr done ↦ rw (search, done) (ap some (ground arith))
        | inl more ↦
            let (s, read) = some_elem ss mid (ground (arith, no_wrap)) in
            elim (Bool-cases (lt s x)) [
              | inl below ↦
                  rw (search, more, read, below)
                    (search_lem x ss k fuel (mid + 1) right p small
                      (ground (arith, p mid (ground (arith, no_wrap)) s read)) hi fits
                      (ground (arith, no_wrap)))
              | inr above ↦
                  rw (search, more, read, above)
                    (search_lem x ss k fuel left mid p small lo
                      (ground (arith, p mid (ground (arith, no_wrap)) s read))
                      (ground (arith, no_wrap)) (ground (arith, no_wrap)))
            ]
      ]
    where
      some_elem :
          (ts : List Double) (i : ℕ) → i < length ts → (s : Double) × (get_elem? ts i ≡ some s)
      some_elem [] i h = absurd (omega arith)
      some_elem (t ∷ ts) zero h = (t, refl)
      some_elem (t ∷ ts) (suc i) h = some_elem ts i (omega arith)

  module _ (o : IsOrder d) where
    insert-All :
        (s y : Double) (ss : List Double)
        → lt s y ≡ false
        → All (λ t. lt t y ≡ false) ss
        → All (λ t. lt t y ≡ false) (insert d s ss)
    unfolding insert
    insert-All s y [] e h = (e, tt)
    insert-All s y (t ∷ ts) e h = elim (Bool-cases (lt t s)) [
      | inl below ↦ rw below (h.0, insert-All s y ts e h.1)
      | inr above ↦ rw above (e, h)
    ]

    not_below : (t s y : Double) → lt t s ≡ false → lt s y ≡ false → lt t y ≡ false
    not_below t s y e e' = ground (arith, o.between t s y)

    insert-Sorted : (s : Double) (ss : List Double) → Sorted ss → Sorted (insert d s ss)
    unfolding insert
    insert-Sorted s [] h = (tt, tt)
    insert-Sorted s (t ∷ ts) h = elim (Bool-cases (lt t s)) [
      | inl below ↦ rw below (insert-All s t ts (o.asym t s below) h.0, insert-Sorted s ts h.1)
      | inr above ↦ rw above ((above, All-imp ts (λ u e. not_below u t s e above) h.0), h)
    ]

    sort-Sorted : (ss : List Double) → Sorted (sort d ss)
    unfolding sort
    sort-Sorted [] = tt
    sort-Sorted (s ∷ ss) = insert-Sorted s (sort d ss) (sort-Sorted ss)

    none_below :
        (x s : Double) (ss : List Double)
        → lt s x ≡ false
        → All (λ t. lt t s ≡ false) ss
        → count_below x ss ≡ 0
    none_below x s [] e h = refl
    none_below x s (t ∷ ts) e h = ground (arith, not_below t s x h.0 e, none_below x s ts e h.1)

    -- In order, the splits below an argument come first.
    Sorted-lt :
        (x : Double) (ss : List Double) (i : ℕ) (s : Double)
        → Sorted ss
        → get_elem? ss i ≡ some s
        → lt s x ≡ ltb i (count_below x ss)
    Sorted-lt x [] i s h e = ground arith
    Sorted-lt x (t ∷ ts) zero s h e = ground (arith, none_below x t ts, h.0)
    Sorted-lt x (t ∷ ts) (suc i) s h e =
        ground (arith, Sorted-lt x ts i s h.1 e, none_below x t ts, h.0)

    -- `GetValue` returns the value whose place is the number of splits below the argument, in
    -- whatever order the splits were given. There is one value more than there are splits, fewer
    -- than 2 ^ 31, and the numbers compare by a strict weak order.
    pub get_value_lem :
        (values splits : List Double) (f : StepFunction d) (x : Double)
        → length values ≡ length splits + 1
        → length splits < 2 ^ 31
        → get_value d x (set_splits d splits (set_values d values f))
          ≡ get_elem? values (count_below x splits)
    unfolding get_value set_splits set_values
    get_value_lem values splits f x e small =
        let ss = sort d splits in
        let k = count_below x splits in
        let size = length-sort splits in
        let no_wrap : u32 (length ss) ≡ length ss = mod-eq_of_lt (omega (arith, size)) in
        let count = count_below-sort x splits in
        let found =
          search_lem x ss (count_below x ss) (suc (length ss)) 0 (length ss)
            (λ i h s read. Sorted-lt x ss i s (sort-Sorted splits) read) (omega (arith, size))
            (omega arith) (count_below-le x ss) (omega arith) (omega arith) in
        let valid : (length values == length ss + 1) ≡ true = ground (arith, size) in
        let inside : ltb (count_below x ss) (length values) ≡ true =
          ground (arith, size, count_below-le x ss) in
        rw (valid, no_wrap, found, inside) (rw count refl)
