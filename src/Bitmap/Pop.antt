-- ===== src/Bitmap/Pop.antt =====
-- `Pop` of common/bitmap.hpp, and the loops that it drives: the bits of a byte in rising order,
-- each once, and no more rounds than the fuel of the model allows.
use mathlib.Core.Path.{fun_ext}
use high_dimensional_flow_re.Base.{
  ℕ, zero, suc, ◌+◌, ◌*◌, ◌≤◌, ◌<◌, ◌≡◌, refl, ap, Bool, true, false, ◌&&◌, Option, none, some,
  List, [], ◌∷◌, arith, ◌==◌, check_below, check_below_sound, ==_iff, Bool-cases, Option-cases, inl,
  inr, if◌then◌else◌, ◌>>=◌, All, elem,
}
use high_dimensional_flow_re.Base.Bits.{bit, bit-lt-two}
use high_dimensional_flow_re.Base.Sums.{sum_over, sum_of}
use high_dimensional_flow_re.Base.Maps.{same, same_sound}
use high_dimensional_flow_re.Bitmap.{pop, pop_each, pop_rounds}

-- The indices of the bits of `x` that are set, from `k` on, among `n`.
bits_from : ℕ → ℕ → ℕ → List ℕ
bits_from k zero x = []
bits_from k (suc n) x = let rest = bits_from (k + 1) n x in if bit k x == 1 then k ∷ rest else rest

pub set_bits : ℕ → List ℕ
unfolding bits_from
set_bits x = bits_from 0 8 x

abbrev pub fold_opt {ℓ} : {S : Type ℓ} → (ℕ → S → Option S) → List ℕ → S → Option S
fold_opt body [] s = some s
fold_opt body (j ∷ js) s = body j s >>= fold_opt body js

-- What the loop pops, and whether it ends within its fuel.
pops : ℕ → ℕ → List ℕ
pops zero x = []
pops (suc fuel) x = elim (pop x) [ none ↦ [] | some (j, x') ↦ j ∷ pops fuel x' ]

ends : ℕ → ℕ → Bool
ends zero x = false
ends (suc fuel) x = elim (pop x) [ none ↦ true | some (j, x') ↦ ends fuel x' ]

pop_table : check_below 256 (λ x. ends pop_rounds x && same (pops pop_rounds x) (set_bits x)) ≡ true
unfolding check_below ends pops pop set_bits
pop_table = refl

pop_lem : (x : ℕ) → x < 256 → (ends pop_rounds x ≡ true) × (pops pop_rounds x ≡ set_bits x)
pop_lem x h = ground (
  arith,
  check_below_sound 256 (λ x. ends pop_rounds x && same (pops pop_rounds x) (set_bits x)) x
      pop_table h,
  same_sound (pops pop_rounds x) (set_bits x),
)

pop_each-eq-fold :
    {S : Type 0} (body : ℕ → S → Option S) (fuel x : ℕ) (s : S)
    → ends fuel x ≡ true
    → pop_each body fuel x s ≡ fold_opt body (pops fuel x) s
unfolding pop_each ends pops
pop_each-eq-fold body zero x s h = ground arith
pop_each-eq-fold body (suc fuel) x s h = elim (Option-cases (pop x)) [
  | inl e ↦ rw (e, pop_each, pops)
  | inr ((j, x'), e) ↦
      rw (e, pop_each, pops)
        (ap (λ k. body j s >>= k)
          (fun_ext λ t. pop_each-eq-fold body fuel x' t (rw (e, ends) at h)))
]

-- The loop over the bits of a byte ends within its fuel, and runs its body once for each bit that
-- is set, from the lowest to the highest.
pub pop_each_lem :
    {S : Type 0} (body : ℕ → S → Option S) (x : ℕ) (s : S)
    → x < 256
    → pop_each body pop_rounds x s ≡ fold_opt body (set_bits x) s
pop_each_lem body x s h =
    let (fin, bits) = pop_lem x h in rw (← bits) (pop_each-eq-fold body pop_rounds x s fin)

-- A sum over the bits that are set.
bits_from-sum :
    (f : ℕ → ℕ) (k n x : ℕ) → sum_of f (bits_from k n x) ≡ sum_over (λ j. bit j x * f j) k n
unfolding sum_of sum_over bits_from
bits_from-sum f k zero x = refl
bits_from-sum f k (suc n) x = elim (Bool-cases (bit k x == 1)) [
  | inl e ↦ rw e (rw ((==_iff _ _).0 e) (omega (arith, bits_from-sum f (k + 1) n x)))
  | inr e ↦
      let z : bit k x ≡ 0 = ground (arith, bit-lt-two k x) in
      rw e (rw z (omega (arith, bits_from-sum f (k + 1) n x)))
]

pub set_bits-sum : (f : ℕ → ℕ) (x : ℕ) → sum_of f (set_bits x) ≡ sum_over (λ j. bit j x * f j) 0 8
unfolding set_bits
set_bits-sum f x = bits_from-sum f 0 8 x

bits_from-All : (k n x m : ℕ) → k + n ≤ m → All (λ j. (j < m) × (bit j x ≡ 1)) (bits_from k n x)
unfolding bits_from
bits_from-All k zero x m h = tt
bits_from-All k (suc n) x m h = elim (Bool-cases (bit k x == 1)) [
  | inl e ↦ rw e ((omega arith, (==_iff _ _).0 e), bits_from-All (k + 1) n x m (omega arith))
  | inr e ↦ rw e (bits_from-All (k + 1) n x m (omega arith))
]

-- The bits that are visited are bits of a byte, and are set.
pub set_bits-All : (x : ℕ) → All (λ j. (j < 8) × (bit j x ≡ 1)) (set_bits x)
unfolding set_bits
set_bits-All x = bits_from-All 0 8 x 8 (omega arith)

elem-bits_from : (k n x j : ℕ) → k ≤ j → j < k + n → bit j x ≡ 1 → elem j (bits_from k n x) ≡ true
unfolding bits_from
elem-bits_from k zero x j low high e = absurd (omega arith)
elem-bits_from k (suc n) x j low high e = elim (Bool-cases (j == k)) [
  | inl found ↦ let here : bit k x ≡ 1 = rw (← (==_iff j k).0 found) e in ground arith
  | inr other ↦ ground (arith, elem-bits_from (k + 1) n x j (ground arith) (omega arith) e)
]

-- Every bit that is set is visited.
pub elem-set_bits : (x j : ℕ) → j < 8 → bit j x ≡ 1 → elem j (set_bits x) ≡ true
unfolding set_bits
elem-set_bits x j h e = elem-bits_from 0 8 x j (omega arith) h e
