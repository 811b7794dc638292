-- ===== src/Http/Router/Decoding/Escapes.antt =====
-- request_handler.cpp: what `url_decode` makes of escaped texts.
use clean_architecture_cpp.Base.{
  ℕ, ◌+◌, ◌-◌, ◌*◌, ◌%◌, ◌/◌, ◌<◌, ◌≡◌, refl, sym, ◌∙◌, ap, Bool, true, false, Bool-cases, ◌⊎◌, inl,
  inr, ◌==◌, ◌||◌, ltb, if◌then◌else◌, none, some, [], ◌∷◌, ◌++◌, append_assoc, append-nil, Text,
  All, push_back, arith,
}
use clean_architecture_cpp.Base.Integer.{pos, skip_space, is_space}
use clean_architecture_cpp.Http.Router.Decoding.{
  hex_value, more_digits, read_hex, plus_as_blank, url_decode_from, url_decode,
}

abbrev pub upper_hex : ℕ → ℕ
upper_hex n = if ltb n 10 then b'0' + n else b'A' + (n - 10)

-- A text with its bytes escaped by two digits each, but for those that are safe.
unfoldable pub url_encode : (ℕ → Bool) → Text → Text
url_encode safe [] = []
url_encode safe (c ∷ s) =
    let rest = url_encode safe s in
    if safe c then c ∷ rest else b'%' ∷ upper_hex (c / 16) ∷ upper_hex (c % 16) ∷ rest

hex_value-upper_hex : (n : ℕ) → n < 16 → hex_value (upper_hex n) ≡ some n
unfolding hex_value
hex_value-upper_hex n h = ground arith

upper_hex_plain :
    (n : ℕ)
    → n < 16
    → (is_space (upper_hex n) ≡ false)
      × ((upper_hex n == b'-') ≡ false)
      × ((upper_hex n == b'+') ≡ false)
      × ((upper_hex n == b'x' || upper_hex n == b'X') ≡ false)
upper_hex_plain n h = (ground arith, ground arith, ground arith, ground arith)

read_hex-byte :
    (m n : ℕ)
    → m < 16
    → n < 16
    → read_hex (upper_hex m ∷ upper_hex n ∷ []) ≡ some (pos (m * 16 + n))
unfolding read_hex skip_space
read_hex-byte m n h k =
    let (space, minus, plus, x) = upper_hex_plain m h in
    let second = (upper_hex_plain n k).3 in
    let first_value = hex_value-upper_hex m h in
    let second_value = hex_value-upper_hex n k in
    elim (Bool-cases (upper_hex m == b'0')) [
      | inl e ↦
          rw
            (
              read_hex, skip_space, space, minus, plus, e, second, first_value, more_digits,
              second_value,
            )
            refl
      | inr e ↦
          rw (read_hex, skip_space, space, minus, plus, e, first_value, more_digits, second_value)
            refl
    ]

url_decode_from-plain :
    (c : ℕ) (s out : Text)
    → (c == b'%') ≡ false
    → url_decode_from (c ∷ s) out ≡ url_decode_from s (push_back out (plus_as_blank c))
unfolding url_decode_from
url_decode_from-plain c [] out e = rw (e, url_decode_from) refl
url_decode_from-plain c (a ∷ []) out e = rw (e, url_decode_from) refl
url_decode_from-plain c (a ∷ b ∷ s) out e = rw (e, url_decode_from) refl

-- An escape of two digits.
url_decode_from-escape :
    (m n : ℕ) (s out : Text)
    → m < 16
    → n < 16
    → url_decode_from (b'%' ∷ upper_hex m ∷ upper_hex n ∷ s) out
      ≡ url_decode_from s (push_back out ((m * 16 + n) % 256))
unfolding url_decode_from
url_decode_from-escape m n s out h k = rw (read_hex-byte m n h k, url_decode_from) refl

safe_ne : (safe : ℕ → Bool) (c k : ℕ) → safe k ≡ false → safe c ≡ true → (c == k) ≡ false
safe_ne safe c k n y = elim (Bool-cases (c == k)) [
  | inl e ↦ let same : c ≡ k = ground arith in let f = ap safe same in absurd (cc)
  | inr e ↦ e
]

-- The escaped text in front of another is decoded and appended.
url_decode_from-before :
    (safe : ℕ → Bool) (s rest out : Text)
    → safe b'%' ≡ false
    → safe b'+' ≡ false
    → All (λ c. c < 256) s
    → url_decode_from (url_encode safe s ++ rest) out ≡ url_decode_from rest (out ++ s)
unfolding url_encode
url_decode_from-before safe [] rest out p q h = rw (append-nil out) refl
url_decode_from-before safe (c ∷ s) rest out p q (small, h) = elim (Bool-cases (safe c)) [
  | inl e ↦
      let percent = safe_ne safe c b'%' p e in
      let plus = safe_ne safe c b'+' q e in
      rw e (
        url_decode_from-plain c (url_encode safe s ++ rest) out percent
        ∙ (rw plus (
            url_decode_from-before safe s rest (push_back out c) p q h
            ∙ (rw (append_assoc out (c ∷ []) s)))))
  | inr e ↦
      let byte : (c / 16 * 16 + c % 16) % 256 ≡ c = omega arith in
      rw e (
        url_decode_from-escape (c / 16) (c % 16) (url_encode safe s ++ rest) out (omega arith)
          (omega arith)
        ∙ (rw byte (
            url_decode_from-before safe s rest (push_back out c) p q h
            ∙ (rw (append_assoc out (c ∷ []) s)))))
]

-- A text whose bytes are escaped by two hexadecimal digits, but for a set of bytes without % and +, is
-- decoded to what it was.
pub url_decode-url_encode :
    (safe : ℕ → Bool) (s : Text)
    → safe b'%' ≡ false
    → safe b'+' ≡ false
    → All (λ c. c < 256) s
    → url_decode (url_encode safe s) ≡ (true, s)
unfolding url_decode url_decode_from
url_decode-url_encode safe s p q h =
    ap (λ t. url_decode_from t []) (sym (append-nil (url_encode safe s)))
    ∙ url_decode_from-before safe s [] [] p q h

-- The texts that end in an escape that is cut short.
abbrev pub IsCut : Text → Type 0
IsCut s = (s ≡ b'%' ∷ []) ⊎ ((a : ℕ) × (s ≡ b'%' ∷ a ∷ []))

url_decode_from-cut : (out cut : Text) → IsCut cut → url_decode_from cut out ≡ (false, out)
unfolding url_decode_from
url_decode_from-cut out cut (inl e) = rw e refl
url_decode_from-cut out cut (inr (a, e)) = rw e refl

-- Where such a text ends in an escape that is cut short, the decoding fails, and leaves what was in
-- front of the escape.
pub url_decode-cut :
    (safe : ℕ → Bool) (s cut : Text)
    → safe b'%' ≡ false
    → safe b'+' ≡ false
    → All (λ c. c < 256) s
    → IsCut cut
    → url_decode (url_encode safe s ++ cut) ≡ (false, s)
unfolding url_decode
url_decode-cut safe s cut p q h k =
    url_decode_from-before safe s cut [] p q h ∙ url_decode_from-cut s cut k

read_hex-half :
    (n c : ℕ) → 0 < n → n < 16 → hex_value c ≡ none → read_hex (upper_hex n ∷ c ∷ []) ≡ some (pos n)
unfolding read_hex skip_space
read_hex-half n c h k bad =
    let (space, minus, plus, x) = upper_hex_plain n k in
    let zero : (upper_hex n == b'0') ≡ false = ground arith in
    rw (read_hex, skip_space, space, minus, plus, zero, hex_value-upper_hex n k, more_digits, bad)
      refl

-- A digit and a byte that is no hexadecimal digit behind % are taken for an escape of the one digit.
pub url_decode-half :
    (safe : ℕ → Bool) (s : Text) (n c : ℕ)
    → safe b'%' ≡ false
    → safe b'+' ≡ false
    → All (λ c. c < 256) s
    → 0 < n
    → n < 16
    → hex_value c ≡ none
    → url_decode (url_encode safe s ++ b'%' ∷ upper_hex n ∷ c ∷ []) ≡ (true, push_back s n)
unfolding url_decode
url_decode-half safe s n c p q h some_bit k bad =
    let small : n % 256 ≡ n = omega arith in
    url_decode_from-before safe s (b'%' ∷ upper_hex n ∷ c ∷ []) [] p q h
    ∙ (rw (url_decode_from, read_hex-half n c some_bit k bad) (rw small refl))
