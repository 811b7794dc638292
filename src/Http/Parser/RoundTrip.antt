-- ===== src/Http/Parser/RoundTrip.antt =====
-- request_parser.cpp: a head that is laid out is read back.
use clean_architecture_cpp.Base.{
  ℕ, ◌<◌, ◌^◌, ◌≡◌, ◌∙◌, false, [], ◌∷◌, ◌++◌, Text, codes, All, push_back, append_assoc, is_empty,
  arith, length,
}
use clean_architecture_cpp.Base.Decimal.{
  IsDecimal, to_string, to_string-IsDecimal, to_string-length,
}
use clean_architecture_cpp.Http.Message.{Request}
use clean_architecture_cpp.Http.Parser.{
  good, method_start, uri, http_version_h, http_version_major_start, http_version_minor_start,
  expecting_newline_1, header_line_start, expecting_newline_3, is_digit, push_digit, parse,
}
use clean_architecture_cpp.Http.Parser.Safety.{IsToken}
use clean_architecture_cpp.Http.Parser.Formats.{Head, IsHead, crlf, lay_out, lay_out_headers}
use clean_architecture_cpp.Http.Parser.StartLine.{
  parse-method, parse-uri, parse-http_version_major, parse-http_version_minor, wraps,
  wraps-to_string,
}
use clean_architecture_cpp.Http.Parser.HeaderLines.{parse-lay_out_headers}

-- What the parser makes of a head in a request that it has not written to yet.
abbrev pub with_head : Request → Head → Request
with_head req h = record req {
  method = h.method;
  uri = h.target;
  http_version_major = h.major;
  http_version_minor = h.minor;
  headers = h.headers;
}

abbrev pub IsUnread : Request → Type 0
IsUnread req = (req.method ≡ []) × (req.uri ≡ []) × (req.headers ≡ [])

parse-method_start :
    (req : Request) (m rest : Text)
    → is_empty m ≡ false
    → All IsToken m
    → parse method_start req (m ++ 32 ∷ rest)
      ≡ parse uri (record req { method = req.method ++ m }) rest
unfolding parse
parse-method_start req [] rest e h = absurd (cc)
parse-method_start req (c ∷ m) rest e (t, h) = ground (
  arith,
  parse-method (record req { method = push_back req.method c }) m rest h,
  append_assoc req.method (c ∷ []) m,
)

parse-major_start :
    (req : Request) (s rest : Text)
    → 0 < length s
    → All IsDecimal s
    → parse http_version_major_start req (s ++ b'.' ∷ rest)
      ≡ parse http_version_minor_start
          (record req { http_version_major = wraps req.http_version_major s })
          rest
unfolding parse wraps is_digit
parse-major_start req [] rest l h = absurd (omega arith)
parse-major_start req (c ∷ s) rest l (t, h) = ground (
  arith,
  parse-http_version_major (record req { http_version_major = push_digit req.http_version_major c })
      s rest h,
)

parse-minor_start :
    (req : Request) (s rest : Text)
    → 0 < length s
    → All IsDecimal s
    → parse http_version_minor_start req (s ++ 13 ∷ rest)
      ≡ parse expecting_newline_1
          (record req { http_version_minor = wraps req.http_version_minor s })
          rest
unfolding parse wraps is_digit
parse-minor_start req [] rest l h = absurd (omega arith)
parse-minor_start req (c ∷ s) rest l (t, h) = ground (
  arith,
  parse-http_version_minor (record req { http_version_minor = push_digit req.http_version_minor c })
      s rest h,
)

parse-version :
    (req : Request) (a b : ℕ) (rest : Text)
    → a < 2 ^ 32
    → b < 2 ^ 32
    → parse http_version_h req (codes "HTTP/" ++ (to_string a ++ b'.' ∷ (to_string b ++ crlf rest)))
      ≡ parse header_line_start (record req { http_version_major = a; http_version_minor = b }) rest
unfolding parse
parse-version req a b rest p q =
    parse-major_start (record req { http_version_major = 0; http_version_minor = 0 }) (to_string a)
      (to_string b ++ crlf rest) (to_string-length a) (to_string-IsDecimal a)
    ∙ parse-minor_start
        (record req { http_version_major = wraps 0 (to_string a); http_version_minor = 0 })
        (to_string b) (10 ∷ rest) (to_string-length b) (to_string-IsDecimal b)
    ∙ (rw (wraps-to_string a p, wraps-to_string b q))

-- A head with a method and header names of token characters, a target without blanks and control
-- characters, header values without control characters and version numbers of 32 bits is accepted,
-- when it is laid out behind nothing and before any bytes. The request holds its parts, the other
-- fields stay, and the bytes behind the head are what is left.
pub parse-lay_out :
    (req : Request) (h : Head) (rest : Text)
    → IsUnread req
    → IsHead h
    → parse method_start req (lay_out h rest) ≡ record {
      result = good;
      rest = rest;
      state = expecting_newline_3;
      request = with_head req h;
    }
unfolding lay_out
parse-lay_out req h rest (m, u, k) v =
    let tail =
      codes "HTTP/"
      ++ (to_string h.major
          ++ b'.' ∷ (to_string h.minor ++ crlf (lay_out_headers h.headers rest))) in
    let req1 = record req { method = req.method ++ h.method } in
    let req2 = record req1 { uri = req.uri ++ h.target } in
    let req3 = record req2 { http_version_major = h.major; http_version_minor = h.minor } in
    parse-method_start req h.method (h.target ++ 32 ∷ tail) v.method_some v.method_token
    ∙ parse-uri req1 h.target tail v.target_plain
    ∙ parse-version req2 h.major h.minor (lay_out_headers h.headers rest) v.major_small
        v.minor_small
    ∙ parse-lay_out_headers req3 h.headers rest v.headers_good
    ∙ (ground arith)
