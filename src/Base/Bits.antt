-- ===== src/Base/Bits.antt =====
-- `&` and `|` of C at variables: one equation for the lowest binary digit, and what it gives
-- for every digit and for every byte.
use Prim.Native.Nat.{
  ℕ, zero, suc, ◌+◌, ◌-◌, ◌*◌, ◌/◌, ◌%◌, ◌^◌, ◌≤◌, ◌<◌, min, max, bit_and, bit_or, digits, bitwise,
  bit_and-bitwise, bit_or-bitwise,
}
use mathlib.Core.Path.{◌≡◌, refl}
use native.Mathlib.Nat.{pow-suc, one-le-pow}
use native.Mathlib.Omega.{arith}
use high_dimensional_flow_re.Base.Tests.{◌==◌, if◌then◌else◌}

-- The native operations stand for a recursion on digits with fuel; more fuel changes nothing.
module _ (rest : ℕ → ℕ) (digit : ℕ → ℕ → ℕ) where
  fuel_irrelevant :
      (f g a b : ℕ) → a ≤ f → a ≤ g → digits rest digit f a b ≡ digits rest digit g a b
  fuel_irrelevant zero zero a b hf hg = refl
  fuel_irrelevant zero (suc g) zero b hf hg = refl
  fuel_irrelevant zero (suc g) (suc a) b hf hg = absurd (omega arith)
  fuel_irrelevant (suc f) zero zero b hf hg = refl
  fuel_irrelevant (suc f) zero (suc a) b hf hg = absurd (omega arith)
  fuel_irrelevant (suc f) (suc g) zero b hf hg = refl
  fuel_irrelevant (suc f) (suc g) (suc a) b hf hg =
      rw (fuel_irrelevant f g (suc a / 2) (b / 2) (omega arith) (omega arith))

  lowest_digit :
      (a b : ℕ)
      → bitwise rest digit (suc a) b
        ≡ bitwise rest digit (suc a / 2) (b / 2) * 2 + digit (suc a % 2) (b % 2)
  lowest_digit a b =
      omega (arith, fuel_irrelevant a (suc a / 2) (suc a / 2) (b / 2) (omega arith) (omega arith))

pub bit_and_digit : (a b : ℕ) → bit_and a b ≡ bit_and (a / 2) (b / 2) * 2 + min (a % 2) (b % 2)
bit_and_digit zero b = simp bit_and-bitwise (omega arith)
bit_and_digit (suc a) b = simp bit_and-bitwise (lowest_digit (λ y. 0) min a b)

pub bit_or_digit : (a b : ℕ) → bit_or a b ≡ bit_or (a / 2) (b / 2) * 2 + max (a % 2) (b % 2)
bit_or_digit zero b = simp bit_or-bitwise (omega arith)
bit_or_digit (suc a) b = simp bit_or-bitwise (lowest_digit (λ y. y) max a b)

-- `(w >> k) & 1`, by recursion on `k`.
abbrev pub bit : ℕ → ℕ → ℕ
bit zero w = w % 2
bit (suc k) w = bit k (w / 2)

pub bit-zero : (k : ℕ) → bit k 0 ≡ 0
bit-zero zero = refl
bit-zero (suc k) = bit-zero k

pub bit-lt-two : (k w : ℕ) → bit k w < 2
bit-lt-two zero w = omega arith
bit-lt-two (suc k) w = bit-lt-two k (w / 2)

pub record WordOp : Type 0 where
  pub op : ℕ → ℕ → ℕ
  pub digit : ℕ → ℕ → ℕ
  pub step : (a b : ℕ) → op a b ≡ op (a / 2) (b / 2) * 2 + digit (a % 2) (b % 2)
  pub digit-lt : (a b : ℕ) → digit (a % 2) (b % 2) < 2
  pub op-zero : op 0 0 ≡ 0

pub and_digit-lt : (a b : ℕ) → min (a % 2) (b % 2) < 2
and_digit-lt a b = omega arith

pub or_digit-lt : (a b : ℕ) → max (a % 2) (b % 2) < 2
or_digit-lt a b = omega arith

abbrev pub and_op : WordOp
and_op = record {
  op = bit_and;
  digit = min;
  step = bit_and_digit;
  digit-lt = and_digit-lt;
  op-zero = refl;
}

abbrev pub or_op : WordOp
or_op = record {
  op = bit_or;
  digit = max;
  step = bit_or_digit;
  digit-lt = or_digit-lt;
  op-zero = refl;
}

-- `(w >> (8 * k)) & 0xff`, by recursion on `k`.
abbrev pub byte : ℕ → ℕ → ℕ
byte zero w = w % 256
byte (suc k) w = byte k (w / 256)

module _ (w : WordOp) where
  open w use {op, digit, step, digit-lt, op-zero}

  -- A word splits into its high part and its low 1, 2, 4 and 8 digits.
  split_two : (a b : ℕ) → op a b ≡ op (a / 2) (b / 2) * 2 + op (a % 2) (b % 2)
  split_two a b = ground (arith, step a b, step (a % 2) (b % 2), op-zero)

  split_four : (a b : ℕ) → op a b ≡ op (a / 4) (b / 4) * 4 + op (a % 4) (b % 4)
  split_four a b =
      ground (arith, split_two a b, split_two (a / 2) (b / 2), split_two (a % 4) (b % 4))

  split_sixteen : (a b : ℕ) → op a b ≡ op (a / 16) (b / 16) * 16 + op (a % 16) (b % 16)
  split_sixteen a b =
      ground (arith, split_four a b, split_four (a / 4) (b / 4), split_four (a % 16) (b % 16))

  split_byte : (a b : ℕ) → op a b ≡ op (a / 256) (b / 256) * 256 + op (a % 256) (b % 256)
  split_byte a b =
      ground (
        arith,
        split_sixteen a b,
        split_sixteen (a / 16) (b / 16),
        split_sixteen (a % 256) (b % 256),
      )

  op-lt-two : (a b : ℕ) → a < 2 → b < 2 → op a b < 2
  op-lt-two a b ha hb = ground (arith, step a b, digit-lt a b, op-zero)

  op-lt-four : (a b : ℕ) → a < 4 → b < 4 → op a b < 4
  op-lt-four a b ha hb =
      omega (arith, step a b, digit-lt a b, op-lt-two (a / 2) (b / 2) (omega arith) (omega arith))

  op-lt-sixteen : (a b : ℕ) → a < 16 → b < 16 → op a b < 16
  op-lt-sixteen a b ha hb = omega (
    arith,
    split_four a b,
    op-lt-four (a / 4) (b / 4) (omega arith) (omega arith),
    op-lt-four (a % 4) (b % 4) (omega arith) (omega arith),
  )

  pub op-lt-byte : (a b : ℕ) → a < 256 → b < 256 → op a b < 256
  op-lt-byte a b ha hb = omega (
    arith,
    split_sixteen a b,
    op-lt-sixteen (a / 16) (b / 16) (omega arith) (omega arith),
    op-lt-sixteen (a % 16) (b % 16) (omega arith) (omega arith),
  )

  -- The operation works byte by byte, and digit by digit.
  pub byte-op : (k a b : ℕ) → byte k (op a b) ≡ op (byte k a) (byte k b)
  byte-op zero a b =
      omega (arith, split_byte a b, op-lt-byte (a % 256) (b % 256) (omega arith) (omega arith))
  byte-op (suc k) a b =
      let high : op a b / 256 ≡ op (a / 256) (b / 256) =
        omega (arith, split_byte a b, op-lt-byte (a % 256) (b % 256) (omega arith) (omega arith)) in
      rw high (byte-op k (a / 256) (b / 256))

  pub bit-op : (k a b : ℕ) → bit k (op a b) ≡ digit (bit k a) (bit k b)
  bit-op zero a b = omega (arith, step a b, digit-lt a b)
  bit-op (suc k) a b =
      let high : op a b / 2 ≡ op (a / 2) (b / 2) = omega (arith, step a b, digit-lt a b) in
      rw high (bit-op k (a / 2) (b / 2))

-- The bits of `1 << m`.
pub bit-pow : (k m : ℕ) → bit k (2 ^ m) ≡ (if k == m then 1 else 0)
bit-pow zero zero = refl
bit-pow zero (suc m) = ground (arith, pow-suc 2 m)
bit-pow (suc k) zero = ground (arith, bit-zero k)
bit-pow (suc k) (suc m) =
    let half : 2 ^ suc m / 2 ≡ 2 ^ m = omega (arith, pow-suc 2 m) in
    rw half (ground (arith, bit-pow k m))

-- A mask of `n` ones.
pub bit_ones : (n k : ℕ) → k < n → bit k (2 ^ n - 1) ≡ 1
bit_ones zero k h = absurd (omega arith)
bit_ones (suc n) zero h = omega (arith, pow-suc 2 n, one-le-pow n 2)
bit_ones (suc n) (suc k) h =
    let half : (2 ^ suc n - 1) / 2 ≡ 2 ^ n - 1 = omega (arith, pow-suc 2 n, one-le-pow n 2) in
    rw half (bit_ones n k (omega arith))
