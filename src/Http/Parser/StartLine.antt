-- ===== src/Http/Parser/StartLine.antt =====
-- request_parser.cpp: the parser on the start line of a head.
use clean_architecture_cpp.Base.{
  ℕ, ◌+◌, ◌-◌, ◌*◌, ◌%◌, ◌<◌, ◌^◌, ◌≡◌, refl, ◌∙◌, [], ◌∷◌, ◌++◌, Text, All, push_back,
  append_assoc, append-nil, arith,
}
use clean_architecture_cpp.Base.Decimal.{IsDecimal, to_string, read_digits, read_digits-to_string}
use clean_architecture_cpp.Http.Message.{Request}
use clean_architecture_cpp.Http.Parser.{
  method, uri, http_version_h, http_version_major, http_version_minor_start, http_version_minor,
  expecting_newline_1, is_digit, push_digit, parse,
}
use clean_architecture_cpp.Http.Parser.Safety.{IsToken}
use clean_architecture_cpp.Http.Parser.Formats.{IsTarget, token-ne-space}

pub parse-method :
    (req : Request) (m rest : Text)
    → All IsToken m
    → parse method req (m ++ 32 ∷ rest) ≡ parse uri (record req { method = req.method ++ m }) rest
unfolding parse
parse-method req [] rest h = rw (append-nil req.method)
parse-method req (c ∷ m) rest (t, h) = ground (
  arith,
  token-ne-space c t,
  parse-method (record req { method = push_back req.method c }) m rest h,
  append_assoc req.method (c ∷ []) m,
)

pub parse-uri :
    (req : Request) (u rest : Text)
    → All IsTarget u
    → parse uri req (u ++ 32 ∷ rest) ≡ parse http_version_h (record req { uri = req.uri ++ u }) rest
unfolding parse
parse-uri req [] rest h = rw (append-nil req.uri)
parse-uri req (c ∷ u) rest (t, h) = ground (
  arith,
  parse-uri (record req { uri = push_back req.uri c }) u rest h,
  append_assoc req.uri (c ∷ []) u,
)

-- The number that the parser makes of digits, below the size of an `int`'s bit pattern.
unfoldable pub wraps : ℕ → Text → ℕ
wraps n [] = n
wraps n (c ∷ s) = wraps (push_digit n c) s

pub parse-http_version_major :
    (req : Request) (s rest : Text)
    → All IsDecimal s
    → parse http_version_major req (s ++ b'.' ∷ rest)
      ≡ parse http_version_minor_start
          (record req { http_version_major = wraps req.http_version_major s })
          rest
unfolding parse wraps is_digit
parse-http_version_major req [] rest h = refl
parse-http_version_major req (c ∷ s) rest (t, h) = ground (
  arith,
  parse-http_version_major (record req { http_version_major = push_digit req.http_version_major c })
      s rest h,
)

pub parse-http_version_minor :
    (req : Request) (s rest : Text)
    → All IsDecimal s
    → parse http_version_minor req (s ++ 13 ∷ rest)
      ≡ parse expecting_newline_1
          (record req { http_version_minor = wraps req.http_version_minor s })
          rest
unfolding parse wraps is_digit
parse-http_version_minor req [] rest h = refl
parse-http_version_minor req (c ∷ s) rest (t, h) = ground (
  arith,
  parse-http_version_minor (record req { http_version_minor = push_digit req.http_version_minor c })
      s rest h,
)

read_digits-mod :
    (a b : ℕ) (s : Text)
    → a % 2 ^ 32 ≡ b % 2 ^ 32
    → read_digits a s % 2 ^ 32 ≡ read_digits b s % 2 ^ 32
unfolding read_digits
read_digits-mod a b [] h = h
read_digits-mod a b (c ∷ s) h =
    read_digits-mod (a * 10 + (c - b'0')) (b * 10 + (c - b'0')) s (omega arith)

wraps-read_digits : (n : ℕ) (s : Text) → n < 2 ^ 32 → wraps n s ≡ read_digits n s % 2 ^ 32
unfolding wraps read_digits push_digit
wraps-read_digits n [] h = omega arith
wraps-read_digits n (c ∷ s) h =
    wraps-read_digits (push_digit n c) s (omega arith)
    ∙ read_digits-mod (push_digit n c) (n * 10 + (c - b'0')) s (omega arith)

pub wraps-to_string : (n : ℕ) → n < 2 ^ 32 → wraps 0 (to_string n) ≡ n
wraps-to_string n h =
    wraps-read_digits 0 (to_string n) (omega arith) ∙ (rw (read_digits-to_string n) (omega arith))
