-- ===== src/Http/Router/Decoding.antt =====
-- src/wrappers/http/request_handler.cpp: `url_decode`, which nothing calls.
use clean_architecture_cpp.Base.{
  ℕ, ◌+◌, ◌-◌, ◌*◌, ◌%◌, Bool, true, false, ◌||◌, ◌&&◌, ◌==◌, leb, if◌then◌else◌, Option, none,
  some, [], ◌∷◌, Text, push_back,
}
use clean_architecture_cpp.Base.Integer.{ℤ, pos, negsuc, negate, skip_space}
use mathlib.Core.Option
pub mod Escapes

-- The value of a hexadecimal digit.
unfoldable pub hex_value : ℕ → Option ℕ
hex_value c =
    if leb b'0' c && leb c b'9'
    then some (c - b'0')
    else if leb b'A' c && leb c b'F'
    then some (c - b'A' + 10)
    else if leb b'a' c && leb c b'f'
    then some (c - b'a' + 10)
    else none

-- The digits that follow, up to the first byte that is none. A field of two bytes is in the range of
-- an `int`.
abbrev pub more_digits : ℕ → Text → ℕ
more_digits n [] = n
more_digits n (c ∷ s) = elim (hex_value c) [ none ↦ n | some d ↦ more_digits (n * 16 + d) s ]

-- At least one digit.
abbrev pub some_digits : Text → Option ℕ
some_digits [] = none
some_digits (c ∷ s) = Option.map (λ d. more_digits d s) (hex_value c)

-- Digits, behind 0x or without it.
abbrev pub hex_field : Text → Option ℕ
hex_field [] = none
hex_field (c ∷ []) = some_digits (c ∷ [])
hex_field (c ∷ x ∷ s) =
    if c == b'0' && (x == b'x' || x == b'X') then some_digits s else some_digits (c ∷ x ∷ s)

abbrev pub signed_field : Text → Option ℤ
signed_field [] = none
signed_field (c ∷ s) =
    if c == b'-'
    then Option.map negate (hex_field s)
    else if c == b'+'
    then Option.map pos (hex_field s)
    else Option.map pos (hex_field (c ∷ s))

-- `is >> std::hex >> value` on a stream of the text.
unfoldable pub read_hex : Text → Option ℤ
unfolding skip_space hex_value
read_hex s = signed_field (skip_space s)

-- `static_cast<char>`, as a byte.
abbrev pub char_of : ℤ → ℕ
char_of (pos n) = n % 256
char_of (negsuc n) = 255 - n % 256

abbrev pub plus_as_blank : ℕ → ℕ
plus_as_blank c = if c == b'+' then b' ' else c

-- The loop, from a place in the text on, with what was decoded so far.
unfoldable pub url_decode_from : Text → Text → Bool × Text
unfolding read_hex
url_decode_from [] out = (true, out)
url_decode_from (c ∷ []) out =
    if c == b'%' then (false, out) else (true, push_back out (plus_as_blank c))
url_decode_from (c ∷ a ∷ []) out =
    let rest = url_decode_from (a ∷ []) (push_back out (plus_as_blank c)) in
    if c == b'%' then (false, out) else rest
url_decode_from (c ∷ a ∷ b ∷ s) out = elim (c == b'%') [
  | true ↦ elim (read_hex (a ∷ b ∷ [])) [
    | none ↦ (false, out)
    | some n ↦ url_decode_from s (push_back out (char_of n))
  ]
  | false ↦ url_decode_from (a ∷ b ∷ s) (push_back out (plus_as_blank c))
]

-- `url_decode`, with what it returns and what it leaves in `out`.
unfoldable pub url_decode : Text → Bool × Text
unfolding url_decode_from
url_decode s = url_decode_from s []
