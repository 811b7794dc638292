-- ===== src/Base/Integer.antt =====
-- `int` and `int64_t` values, `std::to_string` of them, and the reading of `std::stoi`, `std::stoll`.
use Prim.Native.Nat.{ℕ, zero, suc, ◌^◌, ◌≤◌, ◌<◌}
use mathlib.Core.Path.{◌≡◌, refl, ap, ◌∙◌}
use mathlib.Core.Bool.{Bool, true, false, ◌&&◌, ◌||◌}
use mathlib.Core.List.{[], ◌∷◌}
use native.Mathlib.Omega.{arith}
use clean_architecture_cpp.Base.Tests.{ltb, leb, ◌==◌, if◌then◌else◌}
use clean_architecture_cpp.Base.Lists.{length, All}
use clean_architecture_cpp.Base.Bytes.{Text, is_empty}
use clean_architecture_cpp.Base.Exceptions.{Throws, ret, throw, out_of_range, invalid_argument}
use clean_architecture_cpp.Base.Decimal.{
  is_decimal, IsDecimal, to_string, read_digits, read_digits-to_string, to_string-IsDecimal,
  to_string-length,
}

-- `negsuc n` is -(n + 1).
pub data ℤ : Type 0 where
  pos : ℕ → ℤ
  negsuc : ℕ → ℤ

abbrev pub negate : ℕ → ℤ
negate zero = pos 0
negate (suc n) = negsuc n

-- `isspace` in the C locale.
abbrev pub is_space : ℕ → Bool
is_space c = c == 32 || (leb 9 c && leb c 13)

unfoldable pub skip_space : Text → Text
skip_space [] = []
skip_space (c ∷ s) = if is_space c then skip_space s else c ∷ s

unfoldable pub leading_digits : Text → Text
leading_digits [] = []
leading_digits (c ∷ s) = if is_decimal c then c ∷ leading_digits s else []

-- The integers from -bound up to bound - 1 are in range.
in_range : ℕ → Bool → ℕ → Throws ℤ
in_range bound true n = if leb n bound then ret (negate n) else throw out_of_range
in_range bound false n = if ltb n bound then ret (pos n) else throw out_of_range

read_magnitude : ℕ → Bool → Text → Throws ℤ
read_magnitude bound minus s =
    if is_empty (leading_digits s)
    then throw invalid_argument
    else in_range bound minus (read_digits 0 (leading_digits s))

read_sign : ℕ → Text → Throws ℤ
read_sign bound [] = throw invalid_argument
read_sign bound (c ∷ s) =
    if c == b'-'
    then read_magnitude bound true s
    else if c == b'+'
    then read_magnitude bound false s
    else read_magnitude bound false (c ∷ s)

unfoldable pub read_signed : ℕ → Text → Throws ℤ
unfolding read_sign read_magnitude in_range leading_digits skip_space read_digits
read_signed bound s = read_sign bound (skip_space s)

unfoldable pub stoi : Text → Throws ℤ
unfolding read_signed
stoi s = read_signed (2 ^ 31) s

unfoldable pub stoll : Text → Throws ℤ
unfolding read_signed
stoll s = read_signed (2 ^ 63) s

unfoldable pub print : ℤ → Text
unfolding to_string
print (pos n) = to_string n
print (negsuc n) = b'-' ∷ to_string (suc n)

abbrev pub InRange : ℕ → ℤ → Type 0
InRange bound (pos n) = n < bound
InRange bound (negsuc n) = suc n ≤ bound

pub leading_digits_of_All : (s : Text) → All IsDecimal s → leading_digits s ≡ s
unfolding leading_digits
leading_digits_of_All [] h = refl
leading_digits_of_All (c ∷ s) (p, h) = rw p (ap (◌∷◌ c) (leading_digits_of_All s h))

read_magnitude_of_All :
    (bound : ℕ) (minus : Bool) (s : Text)
    → All IsDecimal s
    → 0 < length s
    → read_magnitude bound minus s ≡ in_range bound minus (read_digits 0 s)
unfolding read_magnitude
read_magnitude_of_All bound minus [] h l = absurd (omega arith)
read_magnitude_of_All bound minus (c ∷ s) h l = rw (leading_digits_of_All (c ∷ s) h)

read_signed_of_digits :
    (bound : ℕ) (s : Text)
    → All IsDecimal s
    → 0 < length s
    → read_signed bound s ≡ in_range bound false (read_digits 0 s)
unfolding read_sign skip_space read_signed
read_signed_of_digits bound [] h l = absurd (omega arith)
read_signed_of_digits bound (c ∷ s) (p, h) l =
    ground (arith, read_magnitude_of_All bound false (c ∷ s) (p, h) l)

-- An integer in range is read back from what is printed of it.
pub read_signed-print : (bound : ℕ) (z : ℤ) → InRange bound z → read_signed bound (print z) ≡ ret z
unfolding print in_range read_signed read_magnitude
read_signed-print bound (pos n) h =
    read_signed_of_digits bound (to_string n) (to_string-IsDecimal n) (to_string-length n)
    ∙ (rw (read_digits-to_string n) (ground arith))
read_signed-print bound (negsuc n) h =
    read_magnitude_of_All bound true (to_string (suc n)) (to_string-IsDecimal (suc n))
      (to_string-length (suc n))
    ∙ (rw (read_digits-to_string (suc n)) (ground arith))
