-- ===== src/Base/Decimal.antt =====
-- The library functions that read numbers in decimal notation.
use Prim.Native.Nat.{ℕ, zero, suc, ◌+◌, ◌-◌, ◌*◌, ◌/◌, ◌%◌, ◌^◌}
use mathlib.Core.Bool.{◌&&◌, ◌||◌}
use mathlib.Core.List.{List, [], ◌∷◌}
use high_dimensional_flow_re.Base.Tests.{ltb, leb, ◌==◌, if◌then◌else◌}
use high_dimensional_flow_re.Base.Ints.{ℤ, pos, negsuc}

-- White space, a sign, and the number of the digits that follow, of any size.
unfoldable pub decimal_digits : ℕ → List ℕ → ℕ
decimal_digits n [] = n
decimal_digits n (c ∷ cs) =
    let rest = decimal_digits (10 * n + (c - 48)) cs in if leb 48 c && leb c 57 then rest else n

abbrev minus : ℕ → ℤ
minus zero = pos 0
minus (suc n) = negsuc n

unfoldable pub decimal : List ℕ → ℤ
decimal [] = pos 0
decimal (c ∷ cs) =
    let skipped = decimal cs in
    if c == 32 || (leb 9 c && leb c 13)
    then skipped
    else (if c == 45
        then minus (decimal_digits 0 cs)
        else (if c == 43 then pos (decimal_digits 0 cs) else pos (decimal_digits 0 (c ∷ cs))))

-- `strtol` in base ten, which stops at the ends of a `long` of 64 bits.
abbrev pub clamp_long : ℤ → ℤ
clamp_long (pos n) = if ltb n (2 ^ 63) then pos n else pos (2 ^ 63 - 1)
clamp_long (negsuc n) = if ltb n (2 ^ 63) then negsuc n else negsuc (2 ^ 63 - 1)

unfoldable pub strtol : List ℕ → ℤ
strtol str = clamp_long (decimal str)

-- The low bits of a number of any sign, as a word of `n` bits.
abbrev pub low_bits : ℕ → ℤ → ℕ
low_bits n (pos m) = m % 2 ^ n
low_bits n (negsuc m) = 2 ^ n - 1 - m % 2 ^ n

-- The conversion of a number to an `int`.
abbrev pub int_of : ℤ → ℤ
int_of m = let w = low_bits 32 m in if ltb w (2 ^ 31) then pos w else negsuc (2 ^ 32 - w - 1)

-- `atoi`, which is `strtol` and the conversion to an `int`.
unfoldable pub atoi : List ℕ → ℤ
atoi str = int_of (strtol str)

-- The decimal digits of a 32-bit number, of which there are ten at most, before those of `acc`.
pub digits_before : ℕ → ℕ → List ℕ → List ℕ
digits_before zero n acc = acc
digits_before (suc fuel) n acc =
    let rest = digits_before fuel (n / 10) ((48 + n % 10) ∷ acc) in
    if ltb n 10 then (48 + n) ∷ acc else rest

pub digits : ℕ → List ℕ
digits n = digits_before 10 n []
