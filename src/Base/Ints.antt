-- ===== src/Base/Ints.antt =====
-- Signed integers: return codes, and the sizes that a file operation adds up in an `int64_t`.
use Prim.Native.Nat.{ℕ, suc, ◌+◌, ◌-◌, ◌^◌, ◌<◌}
use mathlib.Core.Path.{◌≡◌}
use mathlib.Core.Bool.{Bool, true, false}
use native.Mathlib.Omega.{arith}
use high_dimensional_flow_re.Base.Tests.{ltb, if◌then◌else◌, u64}

-- `negsuc n` is the number `- n - 1`.
pub data ℤ : Type 0 where
  pos : ℕ → ℤ
  negsuc : ℕ → ℤ

-- The 64 bits of a word, read as a signed number.
abbrev pub int64 : ℕ → ℤ
int64 x = if ltb x (2 ^ 63) then pos x else negsuc (2 ^ 64 - x - 1)

-- `size += n` on an `int64_t`, where `n` is a `size_t`.
abbrev pub add_size : ℤ → ℕ → ℤ
add_size (pos m) n = int64 (u64 (m + n))
add_size (negsuc m) n = int64 (u64 (2 ^ 64 - suc m + n))

abbrev pub is_negative : ℤ → Bool
is_negative (pos m) = false
is_negative (negsuc m) = true

pub add_size-pos : (m n : ℕ) → m + n < 2 ^ 63 → add_size (pos m) n ≡ pos (m + n)
add_size-pos m n h = ground arith
