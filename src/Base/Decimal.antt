-- ===== src/Base/Decimal.antt =====
-- `std::to_string` and `std::stoi`, by the decimal digits of a number.
use Prim.Native.Nat.{ℕ, zero, suc, ◌+◌, ◌-◌, ◌*◌, ◌/◌, ◌%◌, ◌≤◌, ◌<◌}
use mathlib.Core.Path.{◌≡◌, refl}
use mathlib.Core.Bool.{Bool, true, ◌&&◌}
use mathlib.Core.Logic.{inl, inr}
use mathlib.Core.List.{[], ◌∷◌, ◌++◌}
use native.Mathlib.Omega.{arith}
use clean_architecture_cpp.Base.Tests.{ltb, leb, if◌then◌else◌, Bool-cases, ltb→lt, ltb_false→le}
use clean_architecture_cpp.Base.Lists.{length, length-append, All, All-append}
use clean_architecture_cpp.Base.Bytes.{Text}

abbrev pub is_decimal : ℕ → Bool
is_decimal c = leb b'0' c && leb c b'9'

digits : ℕ → ℕ → Text
digits zero n = []
digits (suc f) n =
    let rest = digits f (n / 10) in
    if ltb n 10 then (b'0' + n) ∷ [] else rest ++ (b'0' + n % 10) ∷ []

-- `std::to_string` of a number that is not negative.
unfoldable pub to_string : ℕ → Text
unfolding digits
to_string n = digits (suc n) n

-- The number that the digits stand for, read after `acc`.
unfoldable pub read_digits : ℕ → Text → ℕ
read_digits acc [] = acc
read_digits acc (c ∷ s) = read_digits (acc * 10 + (c - b'0')) s

pub read_digits-append :
    (acc : ℕ) (s t : Text) → read_digits acc (s ++ t) ≡ read_digits (read_digits acc s) t
unfolding read_digits
read_digits-append acc [] t = refl
read_digits-append acc (c ∷ s) t = read_digits-append (acc * 10 + (c - b'0')) s t

read_digits-digits : (f n : ℕ) → n < f → read_digits 0 (digits f n) ≡ n
unfolding read_digits digits
read_digits-digits zero n h = elim h [ ]
read_digits-digits (suc f) n h = elim (Bool-cases (ltb n 10)) [
  | inl e ↦ rw e (omega arith)
  | inr e ↦
      let big : 10 ≤ n = ltb_false→le n 10 e in
      rw
        (
          e,
          read_digits-append 0 (digits f (n / 10)) ((b'0' + n % 10) ∷ []),
          read_digits-digits f (n / 10) (omega arith),
        )
        (omega arith)
]

-- Reading what was printed gives the number back.
pub read_digits-to_string : (n : ℕ) → read_digits 0 (to_string n) ≡ n
unfolding to_string
read_digits-to_string n = read_digits-digits (suc n) n (omega arith)

abbrev pub IsDecimal : ℕ → Type 0
IsDecimal c = is_decimal c ≡ true

digit-IsDecimal : (k : ℕ) → k < 10 → IsDecimal (b'0' + k)
digit-IsDecimal k h = ground arith

digits-IsDecimal : (f n : ℕ) → n < f → All IsDecimal (digits f n)
unfolding digits
digits-IsDecimal zero n h = elim h [ ]
digits-IsDecimal (suc f) n h = elim (Bool-cases (ltb n 10)) [
  | inl e ↦ rw e (digit-IsDecimal n (ltb→lt n 10 e), tt)
  | inr e ↦
      let big : 10 ≤ n = ltb_false→le n 10 e in
      rw e (
        All-append IsDecimal (digits f (n / 10)) ((b'0' + n % 10) ∷ [])
          (digits-IsDecimal f (n / 10) (omega arith)) (digit-IsDecimal (n % 10) (omega arith), tt))
]

pub to_string-IsDecimal : (n : ℕ) → All IsDecimal (to_string n)
unfolding to_string
to_string-IsDecimal n = digits-IsDecimal (suc n) n (omega arith)

digits-length : (f n : ℕ) → n < f → 0 < length (digits f n)
unfolding digits
digits-length zero n h = elim h [ ]
digits-length (suc f) n h = elim (Bool-cases (ltb n 10)) [
  | inl e ↦ rw e (omega arith)
  | inr e ↦ rw e (omega (arith, length-append (digits f (n / 10)) ((b'0' + n % 10) ∷ [])))
]

pub to_string-length : (n : ℕ) → 0 < length (to_string n)
unfolding to_string
to_string-length n = digits-length (suc n) n (omega arith)
