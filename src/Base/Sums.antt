-- ===== src/Base/Sums.antt =====
-- Sums over a range of indices, and over the elements of a list.
use Prim.Native.Nat.{ℕ, zero, suc, ◌+◌, ◌*◌, ◌≤◌, ◌<◌}
use Prim.Native.Nat.add
use mathlib.Core.Path.{◌≡◌, refl}
use mathlib.Core.List.{List, [], ◌∷◌}
use native.Mathlib.Nat.{zero-add}
use native.Mathlib.Omega.{arith}

-- f lo + f (lo + 1) + …, `n` terms.
unfoldable pub sum_over : (ℕ → ℕ) → ℕ → ℕ → ℕ
sum_over f lo zero = 0
sum_over f lo (suc n) = f lo + sum_over f (lo + 1) n

unfoldable pub sum_of : (ℕ → ℕ) → List ℕ → ℕ
sum_of f [] = 0
sum_of f (x ∷ xs) = f x + sum_of f xs

pub sum_over-add :
    (f : ℕ → ℕ) (lo m n mid : ℕ)
    → lo + m ≡ mid
    → sum_over f lo (m + n) ≡ sum_over f lo m + sum_over f mid n
unfolding sum_over
sum_over-add f lo zero n mid e = let e' : lo ≡ mid = omega arith in rw (e', zero-add, zero-add)
sum_over-add f lo (suc m) n mid e =
    rw add.suc (omega (arith, sum_over-add f (lo + 1) m n mid (omega arith)))

pub sum_over_ext :
    (f g : ℕ → ℕ) (lo n : ℕ)
    → ((c : ℕ) → lo ≤ c → c < lo + n → f c ≡ g c)
    → sum_over f lo n ≡ sum_over g lo n
unfolding sum_over
sum_over_ext f g lo zero h = refl
sum_over_ext f g lo (suc n) h = omega (
  arith,
  h lo (omega arith) (omega arith),
  sum_over_ext f g (lo + 1) n (λ c p q. h c (omega arith) (omega arith)),
)

pub sum_over-le : (f : ℕ → ℕ) (lo n m : ℕ) → ((c : ℕ) → f c ≤ m) → sum_over f lo n ≤ n * m
unfolding sum_over
sum_over-le f lo zero m h = omega arith
sum_over-le f lo (suc n) m h = omega (arith, h lo, sum_over-le f (lo + 1) n m h)

pub sum_over-zero :
    (f : ℕ → ℕ) (lo n : ℕ) → ((c : ℕ) → lo ≤ c → c < lo + n → f c ≡ 0) → sum_over f lo n ≡ 0
unfolding sum_over
sum_over-zero f lo zero h = refl
sum_over-zero f lo (suc n) h = omega (
  arith,
  h lo (omega arith) (omega arith),
  sum_over-zero f (lo + 1) n (λ c p q. h c (omega arith) (omega arith)),
)
