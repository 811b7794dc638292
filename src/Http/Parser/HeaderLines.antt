-- ===== src/Http/Parser/HeaderLines.antt =====
-- request_parser.cpp: the parser on the header lines of a head.
use clean_architecture_cpp.Base.{
  ℕ, ◌≡◌, refl, ap, ◌∙◌, false, List, [], ◌∷◌, ◌++◌, Text, All, push_back, append_assoc, append-nil,
  is_empty, arith,
}
use clean_architecture_cpp.Http.Message.{Header, Request}
use clean_architecture_cpp.Http.Parser.{
  good, header_line_start, header_name, space_before_header_value, header_value,
  expecting_newline_3, change_back, push_name, push_value, parse,
}
use clean_architecture_cpp.Http.Parser.Safety.{IsToken, IsNoControl, IsHeader}
use clean_architecture_cpp.Http.Parser.Formats.{
  crlf, lay_out_headers, token-ne-space, token-ne-colon, token-ne-return, token-ne-tab,
  no_control-ne-return,
}

change_back-push_back :
    (f : Header → Header) (hs : List Header) (h : Header)
    → change_back f (push_back hs h) ≡ push_back hs (f h)
unfolding change_back
change_back-push_back f [] h = refl
change_back-push_back f (x ∷ []) h = refl
change_back-push_back f (x ∷ y ∷ hs) h = ap (◌∷◌ x) (change_back-push_back f (y ∷ hs) h)

abbrev with_back : Request → List Header → Text → Text → Request
with_back req hs name value = record req {
  headers = push_back hs (record { name = name; value = value });
}

parse-header_name :
    (req : Request) (hs : List Header) (n m rest : Text)
    → All IsToken m
    → parse header_name (with_back req hs n []) (m ++ b':' ∷ rest)
      ≡ parse space_before_header_value (with_back req hs (n ++ m) []) rest
unfolding parse
parse-header_name req hs n [] rest h = rw (append-nil n)
parse-header_name req hs n (c ∷ m) rest (t, h) = ground (
  arith,
  token-ne-colon c t,
  change_back-push_back (push_name c) hs (record { name = n; value = [] }),
  parse-header_name req hs (push_back n c) m rest h,
  append_assoc n (c ∷ []) m,
)

parse-header_value :
    (req : Request) (hs : List Header) (n v w rest : Text)
    → All IsNoControl w
    → parse header_value (with_back req hs n v) (w ++ crlf rest)
      ≡ parse header_line_start (with_back req hs n (v ++ w)) rest
unfolding parse
parse-header_value req hs n v [] rest h = rw (append-nil v)
parse-header_value req hs n v (c ∷ w) rest (t, h) = ground (
  arith,
  no_control-ne-return c t,
  change_back-push_back (push_value c) hs (record { name = n; value = v }),
  parse-header_value req hs n (push_back v c) w rest h,
  append_assoc v (c ∷ []) w,
)

parse-name_start :
    (req : Request) (c : ℕ) (rest : Text)
    → IsToken c
    → parse header_line_start req (c ∷ rest)
      ≡ parse header_name (with_back req req.headers (c ∷ []) []) rest
unfolding parse
parse-name_start req c rest t =
    ground (arith, token-ne-space c t, token-ne-return c t, token-ne-tab c t)

parse-header_line :
    (req : Request) (n v rest : Text)
    → is_empty n ≡ false
    → All IsToken n
    → All IsNoControl v
    → parse header_line_start req (n ++ b':' ∷ 32 ∷ (v ++ crlf rest))
      ≡ parse header_line_start (with_back req req.headers n v) rest
unfolding parse
parse-header_line req [] v rest e t p = absurd (cc)
parse-header_line req (c ∷ n) v rest e (t, h) p =
    parse-name_start req c (n ++ b':' ∷ 32 ∷ (v ++ crlf rest)) t
    ∙ parse-header_name req req.headers (c ∷ []) n (32 ∷ (v ++ crlf rest)) h
    ∙ parse-header_value req req.headers (c ∷ n) [] v rest p

pub parse-lay_out_headers :
    (req : Request) (hs : List Header) (rest : Text)
    → All IsHeader hs
    → parse header_line_start req (lay_out_headers hs rest) ≡ record {
      result = good;
      rest = rest;
      state = expecting_newline_3;
      request = record req { headers = req.headers ++ hs };
    }
unfolding parse
parse-lay_out_headers req [] rest h = rw (append-nil req.headers)
parse-lay_out_headers req (h ∷ hs) rest (v, k) =
    parse-header_line req h.name h.value (lay_out_headers hs rest) v.named v.name_token
      v.value_plain
    ∙ parse-lay_out_headers (record req { headers = push_back req.headers h }) hs rest k
    ∙ (rw (append_assoc req.headers (h ∷ []) hs))
