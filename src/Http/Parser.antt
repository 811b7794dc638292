-- ===== src/Http/Parser.antt =====
-- src/wrappers/http/request_parser.hpp and request_parser.cpp: the parser of request heads, a state
-- machine that is fed one byte at a time. A `char` is its byte, from 0 to 255; those from 128 up are
-- the negative values of the signed `char`.
pub mod Chunks
pub mod Safety
pub mod Formats
pub mod StartLine
pub mod HeaderLines
pub mod RoundTrip
use clean_architecture_cpp.Base.{
  ℕ, ◌+◌, ◌-◌, ◌*◌, ◌%◌, ◌^◌, Bool, true, false, not, ◌&&◌, ◌||◌, ltb, leb, ◌==◌, if◌then◌else◌,
  List, [], ◌∷◌, ◌++◌, Text, push_back, is_empty,
}
use clean_architecture_cpp.Http.Message.{Header, Request}

pub data ResultType : Type 0 where
  good bad indeterminate : ResultType

pub data State : Type 0 where
  method_start method uri http_version_h http_version_t_1 http_version_t_2 http_version_p : State
  http_version_slash http_version_major_start http_version_major http_version_minor_start : State
  http_version_minor expecting_newline_1 header_line_start header_lws header_name : State
  space_before_header_value header_value expecting_newline_2 expecting_newline_3 : State

-- `request_parser::reset`, and the state that the constructor gives.
unfoldable pub reset : State
reset = method_start

unfoldable pub is_char : ℕ → Bool
is_char c = leb c 127

unfoldable pub is_ctl : ℕ → Bool
is_ctl c = leb c 31 || c == 127

unfoldable pub is_tspecial : ℕ → Bool
is_tspecial c =
    c == b'('
    || c == b')'
    || c == b'<'
    || c == b'>'
    || c == b'@'
    || c == b','
    || c == b';'
    || c == b':'
    || c == 92
    || c == 34
    || c == b'/'
    || c == b'['
    || c == b']'
    || c == b'?'
    || c == b'='
    || c == b'{'
    || c == b'}'
    || c == 32
    || c == 9

unfoldable pub is_digit : ℕ → Bool
is_digit c = leb b'0' c && leb c b'9'

-- `!is_char(input) || is_ctl(input) || is_tspecial(input)`
abbrev pub is_no_token : ℕ → Bool
is_no_token c = not (is_char c) || is_ctl c || is_tspecial c

-- `n * 10 + input - '0'` on `int`; an overflow, undefined in the source, is taken to wrap.
unfoldable pub push_digit : ℕ → ℕ → ℕ
push_digit n c = (n * 10 + (c - b'0')) % 2 ^ 32

-- A change of `headers.back()`, which is undefined of an empty vector; the model leaves that as it is.
unfoldable pub change_back : (Header → Header) → List Header → List Header
change_back f [] = []
change_back f (h ∷ []) = f h ∷ []
change_back f (h ∷ k ∷ hs) = h ∷ change_back f (k ∷ hs)

abbrev pub push_name : ℕ → Header → Header
push_name c h = record h { name = push_back h.name c }

abbrev pub push_value : ℕ → Header → Header
push_value c h = record h { value = push_back h.value c }

abbrev pub Step : Type 0
Step = ResultType × State × Request

abbrev pub go : State → Request → Step
go s req = (indeterminate, s, req)

-- `expect` is the pattern `if (input == c) { state_ = next; return indeterminate; } return bad;`
abbrev expect : ℕ → State → State → Request → ℕ → Step
expect c next s req input = if input == c then go next req else (bad, s, req)

-- `request_parser::consume`, which returns its result, the new `state_` and the request.
unfoldable pub consume : State → Request → ℕ → Step
consume method_start req input =
    if is_no_token input
    then (bad, method_start, req)
    else go method (record req { method = push_back req.method input })
consume method req input =
    if input == 32
    then go uri req
    else if is_no_token input
    then (bad, method, req)
    else go method (record req { method = push_back req.method input })
consume uri req input =
    if input == 32
    then go http_version_h req
    else if is_ctl input
    then (bad, uri, req)
    else go uri (record req { uri = push_back req.uri input })
consume http_version_h req input = expect b'H' http_version_t_1 http_version_h req input
consume http_version_t_1 req input = expect b'T' http_version_t_2 http_version_t_1 req input
consume http_version_t_2 req input = expect b'T' http_version_p http_version_t_2 req input
consume http_version_p req input = expect b'P' http_version_slash http_version_p req input
consume http_version_slash req input =
    expect b'/' http_version_major_start http_version_slash
      (if input == b'/' then record req { http_version_major = 0; http_version_minor = 0 } else req)
      input
consume http_version_major_start req input =
    if is_digit input
    then go http_version_major
        (record req { http_version_major = push_digit req.http_version_major input })
    else (bad, http_version_major_start, req)
consume http_version_major req input =
    if input == b'.'
    then go http_version_minor_start req
    else if is_digit input
    then go http_version_major
        (record req { http_version_major = push_digit req.http_version_major input })
    else (bad, http_version_major, req)
consume http_version_minor_start req input =
    if is_digit input
    then go http_version_minor
        (record req { http_version_minor = push_digit req.http_version_minor input })
    else (bad, http_version_minor_start, req)
consume http_version_minor req input =
    if input == 13
    then go expecting_newline_1 req
    else if is_digit input
    then go http_version_minor
        (record req { http_version_minor = push_digit req.http_version_minor input })
    else (bad, http_version_minor, req)
consume expecting_newline_1 req input = expect 10 header_line_start expecting_newline_1 req input
consume header_line_start req input =
    if input == 13
    then go expecting_newline_3 req
    else if not (is_empty req.headers) && (input == 32 || input == 9)
    then go header_lws req
    else if is_no_token input
    then (bad, header_line_start, req)
    else go header_name
        (record req { headers = push_back req.headers (record { name = input ∷ []; value = [] }) })
consume header_lws req input =
    if input == 13
    then go expecting_newline_2 req
    else if input == 32 || input == 9
    then go header_lws req
    else if is_ctl input
    then (bad, header_lws, req)
    else go header_value (record req { headers = change_back (push_value input) req.headers })
consume header_name req input =
    if input == b':'
    then go space_before_header_value req
    else if is_no_token input
    then (bad, header_name, req)
    else go header_name (record req { headers = change_back (push_name input) req.headers })
consume space_before_header_value req input =
    expect 32 header_value space_before_header_value req input
consume header_value req input =
    if input == 13
    then go expecting_newline_2 req
    else if is_ctl input
    then (bad, header_value, req)
    else go header_value (record req { headers = change_back (push_value input) req.headers })
consume expecting_newline_2 req input = expect 10 header_line_start expecting_newline_2 req input
consume expecting_newline_3 req input =
    ((if input == 10 then good else bad), expecting_newline_3, req)

-- What `parse` returns, the bytes from the returned iterator on, and what it leaves behind.
pub record Parsed : Type 0 where
  pub result : ResultType
  pub rest : Text
  pub state : State
  pub request : Request

-- `request_parser::parse` over the bytes from `begin` to `end`.
unfoldable pub parse : State → Request → Text → Parsed
unfolding consume
parse s req [] = record { result = indeterminate; rest = []; state = s; request = req }
parse s req (input ∷ bytes) =
    let (result, next, changed) = consume s req input in
    elim result [
      | indeterminate ↦ parse next changed bytes
      | other ↦ record { result = other; rest = bytes; state = next; request = changed }
    ]
