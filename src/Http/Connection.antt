-- ===== src/Http/Connection.antt =====
-- src/wrappers/http/connection.hpp and connection.cpp: what a connection does with the bytes that it
-- reads. The socket is what it delivers: the bytes of a read, and whether more are available then.
-- The request handler with its callbacks is a section's parameter, a function on the state of the
-- application. A handler that throws ends the event loop.
pub mod Cookies
pub mod Headers
pub mod Serving
pub mod KeepAlive
use clean_architecture_cpp.Base.{
  ℕ, zero, suc, ◌+◌, ◌-◌, ◌*◌, ◌%◌, ◌^◌, Bool, true, false, not, ◌&&◌, ltb, ◌==◌, if◌then◌else◌,
  Option, none, some, List, [], ◌∷◌, ◌++◌, Text, codes, length, text_eq, is_empty, find, substr,
  substr_from, Throws, ret, throw, out_of_fuel, ◌>>=◌,
}
use clean_architecture_cpp.Base.Integer.{ℤ, pos, negsuc, stoi}
use clean_architecture_cpp.Utils.Strings.{iequals}
use clean_architecture_cpp.Http.Message.{Header, Request, Response}
use clean_architecture_cpp.Http.Parser.{State, ResultType, good, bad, indeterminate, Parsed, parse}
use clean_architecture_cpp.Http.Response.{stock_response}

-- `map[key] = value`
unfoldable pub put : Text → Text → List (Text × Text) → List (Text × Text)
put k v [] = (k, v) ∷ []
put k v ((j, w) ∷ map) = if text_eq j k then (j, v) ∷ map else (j, w) ∷ put k v map

abbrev pub store_cookie : Text → Text → Request → Request
store_cookie key val req =
    if text_eq key (codes "SESSION")
    then record req { session_id = val }
    else record req { cookies = put key val req.cookies }

-- What `parse_cookie` does with one piece, `tmp`.
unfoldable pub parse_pair : Text → Request → Throws Request
parse_pair tmp req = elim (find tmp b'=' 0) [
  | none ↦ ret req
  | some mid_cursor ↦ do
    key ← substr tmp 0 mid_cursor
    val ← substr_from tmp (mid_cursor + 1)
    ret (store_cookie key val req)
]

-- The loop of `parse_cookie` from `start_cursor`, and the piece behind it.
unfoldable pub parse_cookie_from : ℕ → Text → ℕ → Request → Throws Request
unfolding parse_pair
parse_cookie_from zero cookie_string start_cursor req = throw out_of_fuel
parse_cookie_from (suc fuel) cookie_string start_cursor req =
    elim (find cookie_string b';' start_cursor) [
      | some end_cursor ↦ do
        tmp ← substr cookie_string start_cursor (end_cursor - start_cursor)
        req' ← parse_pair tmp req
        parse_cookie_from fuel cookie_string (end_cursor + 2) req'
      | none ↦ do tmp ← substr_from cookie_string start_cursor; parse_pair tmp req
    ]

unfoldable pub parse_cookie : Text → Request → Throws Request
unfolding parse_cookie_from
parse_cookie cookie_string req = parse_cookie_from (length cookie_string + 2) cookie_string 0 req

abbrev pub is_unset : ℤ → Bool
is_unset (pos n) = false
is_unset (negsuc n) = n == 0

-- The body of the loop over the headers: what it makes of the request, and whether it counts.
unfoldable pub take_header : Header → Request → Throws (Request × Bool)
unfolding iequals
take_header h req =
    if is_unset req.content_len && iequals h.name (codes "content-length")
    then (do n ← stoi h.value; ret (record req { content_len = n }, true))
    else if is_empty req.content_type && iequals h.name (codes "content-type")
    then ret (record req { content_type = h.value }, true)
    else if is_empty req.cookies && iequals h.name (codes "cookie")
    then (do req' ← parse_cookie h.value req; ret (req', true))
    else ret (req, false)

-- The loop over the headers, with the counter `i`; it stops when three have been taken.
unfoldable pub take_headers : ℕ → List Header → Request → Throws Request
unfolding take_header
take_headers i [] req = ret req
take_headers i (h ∷ headers) req = do
  taken ← take_header h req
  if ltb 2 (if taken.1 then i + 1 else i)
      then ret taken.0
      else take_headers (if taken.1 then i + 1 else i) headers taken.0

-- An `int` as the unsigned number of the given width that a comparison converts it to.
abbrev pub as_unsigned : ℕ → ℤ → ℕ
as_unsigned width (pos n) = n % 2 ^ width
as_unsigned width (negsuc n) = (2 ^ width - suc n % 2 ^ width) % 2 ^ width

pub record Connection : Type 0 where
  pub header_buffer : Bool
  pub req : Request
  pub parser : State
  pub res : Response

-- What a connection waits for next: a read, the end of the write of its response, or nothing.
pub data Pending : Type 0 where
  reading writing idle : Pending

module _ {W : Type 0} (handle : Request → Response → W → Throws (Request × Response × W)) where
  abbrev pub Done : Type 0
  Done = Throws (Connection × Pending × W)

  -- `handle_request(&req, &res); do_write();`
  abbrev pub serve : Connection → W → Done
  serve c w = do
    served ← handle c.req c.res w
    ret (record c { req = served.0; res = served.1 }, writing, served.2)

  -- `res = response::stock_response(STATUS_BAD_REQUEST); do_write();`
  abbrev pub reject : Connection → W → Done
  reject c w = ret (record c { res = stock_response 400 }, writing, w)

  -- The case of a complete head, with the bytes behind it.
  unfoldable pub handle_good : Connection → Text → Bool → W → Done
  handle_good c rest available w = do
    req ← take_headers 0 c.req.headers c.req
    if available
        then ret (record c { req = record req { body = rest }; header_buffer = false }, idle, w)
        else if ltb (as_unsigned 32 req.content_len) (length rest)
        then reject (record c { req = req }) w
        else serve (record c { req = record req { body = rest } }) w

  -- The cases of `handle_header_buffer` on the parser's verdict.
  unfoldable pub after_parse : Connection → Parsed → Bool → W → Done
  after_parse c p available w =
      let c' = record c { parser = p.state; req = p.request } in
      elim p.result [
        | good ↦ handle_good c' p.rest available w
        | bad ↦ reject c' w
        | indeterminate ↦ ret (c', reading, w)
      ]

  unfoldable pub handle_header_buffer : Connection → Text → Bool → W → Done
  unfolding after_parse
  handle_header_buffer c bytes available w = after_parse c (parse c.parser c.req bytes) available w

  unfoldable pub handle_body_buffer : Connection → Text → Bool → W → Done
  handle_body_buffer c bytes available w =
      let c' = record c { req = record c.req { body = c.req.body ++ bytes } } in
      if ltb (as_unsigned 64 c'.req.content_len) (length c'.req.body)
      then reject (record c' { header_buffer = true }) w
      else if available
      then ret (c', reading, w)
      else serve (record c' { header_buffer = true }) w

  -- The completion of a read without an error.
  unfoldable pub on_read : Connection → Text → Bool → W → Done
  unfolding handle_header_buffer handle_body_buffer
  on_read c bytes available w =
      if c.header_buffer
      then handle_header_buffer c bytes available w
      else handle_body_buffer c bytes available w
