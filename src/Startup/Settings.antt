-- ===== src/Startup/Settings.antt =====
-- main.cpp: the numbers that the settings stand for.
use clean_architecture_cpp.Base.{
  ℕ, ◌-◌, ◌^◌, ◌%◌, ◌<◌, ◌≡◌, refl, ap, ◌==◌, ltb, false, if◌then◌else◌, Bool-cases, inl, inr, [],
  ◌∷◌, Text, length, All, arith,
}
use clean_architecture_cpp.Base.Decimal.{
  IsDecimal, to_string, to_string-IsDecimal, to_string-length, read_digits, read_digits-to_string,
}
use clean_architecture_cpp.Base.Integer.{is_space, skip_space, leading_digits_of_All}
use clean_architecture_cpp.Startup.{uint_of}
use clean_architecture_cpp.Startup.Numbers.{with_sign, strtoul, to_uint}
use clean_architecture_cpp.Store.Redis.{c_string}
use clean_architecture_cpp.Store.Redis.Laws.{c_string_of_Lacks}
use clean_architecture_cpp.Store.Redis.Typed.{decimal-Lacks}
use clean_architecture_cpp.Utils.Env.{Environ, get_env}

with_sign_of_decimals :
    (s : Text)
    → All IsDecimal s
    → 0 < length s
    → with_sign (skip_space s) ≡ (false, read_digits 0 s)
unfolding skip_space
with_sign_of_decimals [] h l = absurd (omega arith)
with_sign_of_decimals (c ∷ s) (p, h) l =
    let space : is_space c ≡ false = ground arith in
    let minus : (c == b'-') ≡ false = ground arith in
    let plus : (c == b'+') ≡ false = ground arith in
    rw (space, minus, plus)
      (ap (λ t. (false, read_digits 0 t)) (leading_digits_of_All (c ∷ s) (p, h)))

-- A setting that is the decimal text of a number below 2^64 stands for its lower 32 bits, and one
-- that is the text of a greater number for 2^32 - 1.
pub uint_of-to_string :
    (key def : Text) (env : Environ) (n : ℕ)
    → get_env key def env ≡ to_string n
    → uint_of key def env ≡ (if ltb n (2 ^ 64) then n % 2 ^ 32 else 2 ^ 32 - 1)
unfolding uint_of strtoul to_uint
uint_of-to_string key def env n e =
    let text : c_string (to_string n) ≡ to_string n =
      c_string_of_Lacks (to_string n) (decimal-Lacks (to_string n) (to_string-IsDecimal n)) in
    rw
      (
        e,
        text,
        with_sign_of_decimals (to_string n) (to_string-IsDecimal n) (to_string-length n),
        read_digits-to_string n,
      )
      (elim (Bool-cases (ltb n (2 ^ 64))) [ inl e ↦ rw e refl | inr e ↦ rw e refl ])
