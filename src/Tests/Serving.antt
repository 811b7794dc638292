-- ===== src/Tests/Serving.antt =====
-- Runs of the theorems on connection.cpp, with a handler that counts its calls.
use clean_architecture_cpp.Base.{
  All, ℕ, ◌+◌, ◌≡◌, refl, true, false, [], ◌∷◌, Text, codes, Throws, ret, throw, invalid_argument,
  ◌>>=◌, arith,
}
use clean_architecture_cpp.Base.Integer.{pos, stoi, read_signed}
use clean_architecture_cpp.Utils.Strings.{iequals, tolower}
use clean_architecture_cpp.Http.Message.{Header, Request, Response, fresh_request, fresh_response}
use clean_architecture_cpp.Http.Parser.{
  indeterminate, parse, method_start, expecting_newline_3, is_tspecial, is_ctl, is_char,
}
use clean_architecture_cpp.Http.Parser.Safety.{IsHeader}
use clean_architecture_cpp.Http.Parser.Formats.{Head, IsHead, lay_out}
use clean_architecture_cpp.Http.Parser.RoundTrip.{with_head}
use clean_architecture_cpp.Http.Response.{stock_response}
use clean_architecture_cpp.Http.Connection.{
  Connection, reading, writing, idle, on_read, take_headers, take_header, parse_cookie,
}
use clean_architecture_cpp.Http.Connection.Cookies.{
  IsPair, IsStored, cookie_text, parse_cookie-cookie_text,
}
use clean_architecture_cpp.Http.Connection.Headers.{IsAnnounced}
use clean_architecture_cpp.Http.Connection.Serving.{
  parsed, on_read-taken, on_read-serve, on_read-append,
}
use clean_architecture_cpp.Http.Connection.KeepAlive.{
  here, next, on_read_twice, on_read_stalls, on_read_throws,
}

abbrev pub length_header : Text → Header
length_header digits = record { name = codes "Content-Length"; value = digits }

abbrev pub post : Text → Head
post digits = record {
  method = codes "POST";
  target = codes "/a";
  major = 1;
  minor = 1;
  headers = length_header digits ∷ [];
}

post-IsHead : (digits : Text) → IsHeader (length_header digits) → IsHead (post digits)
unfolding is_tspecial is_ctl is_char
post-IsHead digits h = record {
  method_some = refl;
  method_token = ground arith;
  target_plain = ground arith;
  major_small = omega arith;
  minor_small = omega arith;
  headers_good = (h, tt);
}

length_header-IsHeader :
    (digits : Text) → All (λ c. is_ctl c ≡ false) digits → IsHeader (length_header digits)
unfolding is_tspecial is_ctl is_char
length_header-IsHeader digits h = record {
  named = refl;
  name_token = ground arith;
  value_plain = h;
}

two-IsHead : IsHead (post (codes "2"))
unfolding is_ctl
two-IsHead = post-IsHead (codes "2") (length_header-IsHeader (codes "2") (refl, tt))

abbrev handle : Request → Response → ℕ → Throws (Request × Response × ℕ)
handle req res calls = ret (req, record res { content = req.body }, calls + 1)

abbrev pub first : Connection
first = record {
  header_buffer = true;
  req = fresh_request 0 0;
  parser = method_start;
  res = fresh_response;
}

abbrev pub announced : Request
announced = record (with_head (fresh_request 0 0) (post (codes "2"))) { content_len = pos 2 }

announced-take_headers :
    take_headers 0 (post (codes "2")).headers (with_head first.req (post (codes "2")))
    ≡ ret announced
unfolding take_headers take_header iequals tolower stoi read_signed
announced-take_headers = refl

abbrev served : Connection
served = record (parsed first (record announced { body = codes "{}" })) {
  res = record fresh_response { content = codes "{}" };
}

-- The first request of the connection, which the next theorem is run behind.
served_run :
    on_read handle first (lay_out (post (codes "2")) (codes "{}")) false 0
    ≡ ret (served, writing, 1)
served_run =
    on_read-taken handle first (post (codes "2")) (codes "{}") 0 announced refl refl
      (refl, refl, refl) two-IsHead announced-take_headers (omega arith)

-- The connection after a second request.
abbrev refused : Connection
refused = record served { res = stock_response 400 }

refused_run : on_read handle served (codes "PUT") false 1 ≡ ret (refused, writing, 1)
unfolding on_read parse
refused_run = refl

on_read_twice_example :
    on_read handle refused (codes "GET / HTTP/1.1") false 1
    ≡ ret (record refused { res = stock_response 400 }, writing, 1)
on_read_twice_example =
    on_read_twice handle first served refused (post (codes "2")) (codes "{}") writing 0 1 1 b'G'
      (codes "ET / HTTP/1.1") false refl refl (refl, refl, refl) two-IsHead served_run
      (next writing 1 1 false b'P' (codes "UT") here (λ e. absurd (omega (arith, e))) refused_run)
      (λ e. absurd (omega (arith, e)))

on_read_stalls_example :
    on_read handle first (lay_out (post (codes "2")) (codes "{")) true 0
    ≡ ret (
      record (parsed first (record announced { body = codes "{" })) { header_buffer = false },
      idle,
      0,
    )
on_read_stalls_example =
    on_read_stalls handle first (post (codes "2")) (codes "{") 0 announced refl refl
      (refl, refl, refl) two-IsHead announced-take_headers

on_read_throws_example :
    on_read handle first (lay_out (post (codes "x")) []) false 0 ≡ throw invalid_argument
unfolding iequals tolower stoi read_signed is_ctl
on_read_throws_example =
    on_read_throws handle first (post (codes "x")) (codes "Content-Length") (codes "x") []
      invalid_argument [] false 0 refl refl (refl, refl, refl) refl
      (post-IsHead (codes "x") (length_header-IsHeader (codes "x") (refl, tt))) refl refl refl

abbrev pair : Text × Text
pair = (codes "a", codes "1")

abbrev session : Text × Text
session = (codes "SESSION", codes "x")

pairs-IsPair : All IsPair (pair ∷ session ∷ [])
pairs-IsPair = ground arith

parse_cookie-cookie_text_example :
    (req' : Request) × (parse_cookie (cookie_text pair (session ∷ []) []) (fresh_request 1 1)
      ≡ ret req')
    × IsStored (pair ∷ session ∷ []) (fresh_request 1 1) req'
parse_cookie-cookie_text_example =
    parse_cookie-cookie_text pair (session ∷ []) (fresh_request 1 1) pairs-IsPair

-- A request with a length, another header, a type and two cookies.
abbrev accept : Header
accept = record { name = codes "Accept"; value = codes "a" }

abbrev typed : Header
typed = record { name = codes "Content-Type"; value = codes "text" }

abbrev cookies : Header
cookies = record { name = codes "Cookie"; value = cookie_text pair (session ∷ []) [] }

abbrev full : Head
full = record (post (codes "2")) {
  headers = length_header (codes "2") ∷ accept ∷ typed ∷ cookies ∷ [];
}

full-IsHead : IsHead full
unfolding is_tspecial is_ctl is_char
full-IsHead = record {
  method_some = refl;
  method_token = ground arith;
  target_plain = ground arith;
  major_small = omega arith;
  minor_small = omega arith;
  headers_good = (
    length_header-IsHeader (codes "2") (refl, tt),
    (
      record { named = refl; name_token = ground arith; value_plain = ground arith },
      (
        record { named = refl; name_token = ground arith; value_plain = ground arith },
        (record { named = refl; name_token = ground arith; value_plain = ground arith }, tt),
      ),
    ),
  );
}

full-IsAnnounced :
    IsAnnounced full.headers (codes "2") (codes "text") (cookie_text pair (session ∷ []) [])
unfolding iequals tolower
full-IsAnnounced = record {
  xs = [];
  ys = accept ∷ [];
  zs = [];
  rest = [];
  length_name = codes "Content-Length";
  type_name = codes "Content-Type";
  cookie_name = codes "Cookie";
  same = refl;
  named_length = refl;
  named_type = refl;
  named_cookie = refl;
  xs_other = tt;
  ys_other = (record { not_length = refl; not_type = refl; not_cookie = refl }, tt);
  zs_other = tt;
}

on_read-serve_example :
    (req : Request) × (on_read handle first (lay_out full (codes "{}")) false 0 ≡ (do
      served ← handle (record req { body = codes "{}" }) fresh_response 0
      ret (
        record {
          header_buffer = true;
          parser = expecting_newline_3;
          req = served.0;
          res = served.1;
        },
        writing,
        served.2,
      )))
    × IsStored
        (pair ∷ session ∷ [])
        (record (fresh_request 1 1) {
          method = codes "POST";
          uri = codes "/a";
          headers = full.headers;
          content_len = pos 2;
          content_type = codes "text";
        })
        req
unfolding stoi read_signed
on_read-serve_example =
    on_read-serve handle first full (codes "{}") 0 (codes "2") (codes "text") 2 pair (session ∷ [])
      refl refl (refl, refl, refl) refl refl refl full-IsHead full-IsAnnounced refl refl
      pairs-IsPair (omega arith)

half_parsed : (parse method_start (fresh_request 0 0) (codes "GE")).result ≡ indeterminate
unfolding parse is_tspecial is_ctl is_char
half_parsed = refl

on_read-append_example :
    (c' : Connection) × (on_read handle first (codes "GE") false 0 ≡ ret (c', reading, 0))
    × (on_read handle c' (codes "T /") false 0 ≡ on_read handle first (codes "GET /") false 0)
on_read-append_example =
    on_read-append handle first (codes "GE") (codes "T /") false false 0 refl half_parsed
