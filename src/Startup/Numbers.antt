-- ===== src/Startup/Numbers.antt =====
-- `std::strtoul` and `std::strtol` in base 10, on 64 bits, and the casts to `uint` and `int`.
use clean_architecture_cpp.Base.{
  ℕ, ◌-◌, ◌^◌, ◌%◌, ◌==◌, ltb, leb, Bool, true, false, if◌then◌else◌, [], ◌∷◌, Text,
}
use clean_architecture_cpp.Base.Decimal.{read_digits}
use clean_architecture_cpp.Base.Integer.{ℤ, pos, negsuc, negate, skip_space, leading_digits}

-- A magnitude past the range is replaced by the largest value.
abbrev pub saturate_unsigned : Bool → ℕ → ℕ
saturate_unsigned minus n =
    if ltb n (2 ^ 64) then (if minus then (2 ^ 64 - n) % 2 ^ 64 else n) else 2 ^ 64 - 1

abbrev pub saturate_signed : Bool → ℕ → ℤ
saturate_signed true n = if leb n (2 ^ 63) then negate n else negate (2 ^ 63)
saturate_signed false n = if ltb n (2 ^ 63) then pos n else pos (2 ^ 63 - 1)

abbrev pub magnitude : Text → ℕ
magnitude s = read_digits 0 (leading_digits s)

-- A text that begins with no number stands for 0.
abbrev pub with_sign : Text → Bool × ℕ
with_sign [] = (false, 0)
with_sign (c ∷ s) =
    if c == b'-'
    then (true, magnitude s)
    else if c == b'+'
    then (false, magnitude s)
    else (false, magnitude (c ∷ s))

unfoldable pub strtoul : Text → ℕ
unfolding leading_digits skip_space read_digits
strtoul s = let (minus, n) = with_sign (skip_space s) in saturate_unsigned minus n

unfoldable pub strtol : Text → ℤ
unfolding leading_digits skip_space read_digits
strtol s = let (minus, n) = with_sign (skip_space s) in saturate_signed minus n

unfoldable pub to_uint : ℕ → ℕ
to_uint n = n % 2 ^ 32

-- The value of the low 32 bits in two's complement.
abbrev pub from_bits : ℕ → ℤ
from_bits n = if ltb n (2 ^ 31) then pos n else negate (2 ^ 32 - n)

unfoldable pub to_int : ℤ → ℤ
to_int (pos n) = from_bits (n % 2 ^ 32)
to_int (negsuc n) = from_bits (2 ^ 32 - 1 - n % 2 ^ 32)
