-- ===== src/Http/Connection/Serving.antt =====
-- connection.cpp: what a connection answers to one request.
use clean_architecture_cpp.Base.{
  ℕ, ◌%◌, ◌^◌, ◌≤◌, ◌<◌, ◌≡◌, List, [], ◌∷◌, is_empty, All, ◌>>=◌, sym, ◌∙◌, ap, Bool, true, false,
  le→ltb_false, lt→ltb, ◌++◌, Text, length, Throws, ret,
}
use clean_architecture_cpp.Base.Integer.{pos, negsuc, stoi}
use clean_architecture_cpp.Http.Message.{Request, Response}
use clean_architecture_cpp.Http.Parser.{
  State, good, indeterminate, method_start, expecting_newline_3, parse,
}
use clean_architecture_cpp.Http.Parser.Chunks.{parse-append, resume_by}
use clean_architecture_cpp.Http.Parser.Formats.{Head, IsHead, lay_out}
use clean_architecture_cpp.Http.Parser.RoundTrip.{IsUnread, with_head, parse-lay_out}
use clean_architecture_cpp.Http.Response.{stock_response}
use clean_architecture_cpp.Http.Connection.{
  Connection, reading, writing, as_unsigned, take_headers, serve, handle_good, after_parse,
  handle_header_buffer, on_read,
}
use clean_architecture_cpp.Http.Connection.Cookies.{IsPair, IsStored, cookie_text}
use clean_architecture_cpp.Http.Connection.Headers.{IsAnnounced, take_headers-IsAnnounced}

-- The connection after a complete head.
abbrev pub parsed : Connection → Request → Connection
parsed c req = record c { parser = expecting_newline_3; req = req }

module _ {W : Type 0} (handle : Request → Response → W → Throws (Request × Response × W)) where
  pub on_read_header :
      (c : Connection) (bytes : Text) (available : Bool) (w : W)
      → c.header_buffer ≡ true
      → on_read handle c bytes available w ≡ handle_header_buffer handle c bytes available w
  unfolding on_read
  on_read_header c bytes available w b = rw (b, on_read)

  handle_header_buffer-good :
      (c : Connection) (bytes rest : Text) (s : State) (req : Request) (available : Bool) (w : W)
      → parse c.parser c.req bytes ≡ record { result = good; rest = rest; state = s; request = req }
      → handle_header_buffer handle c bytes available w
        ≡ handle_good handle (record c { parser = s; req = req }) rest available w
  unfolding handle_header_buffer
  handle_header_buffer-good c bytes rest s req available w e =
      ap (λ p. after_parse handle c p available w) e

  pub on_read-lay_out :
      (c : Connection) (h : Head) (body : Text) (available : Bool) (w : W)
      → c.header_buffer ≡ true
      → c.parser ≡ method_start
      → IsUnread c.req
      → IsHead h
      → on_read handle c (lay_out h body) available w
        ≡ handle_good handle (parsed c (with_head c.req h)) body available w
  on_read-lay_out c h body available w b s u v =
      on_read_header c (lay_out h body) available w b
      ∙ handle_header_buffer-good c (lay_out h body) body expecting_newline_3 (with_head c.req h)
          available w (rw s (parse-lay_out c.req h body u v))

  -- A head whose headers are taken, and its body.
  pub on_read-taken :
      (c : Connection) (h : Head) (body : Text) (w : W) (req : Request)
      → c.header_buffer ≡ true
      → c.parser ≡ method_start
      → IsUnread c.req
      → IsHead h
      → take_headers 0 h.headers (with_head c.req h) ≡ ret req
      → length body ≤ as_unsigned 32 req.content_len
      → on_read handle c (lay_out h body) false w
        ≡ serve handle (parsed c (record req { body = body })) w
  unfolding handle_good
  on_read-taken c h body w req b s u v e le =
      on_read-lay_out c h body false w b s u v
      ∙ rw (e, handle_good, le→ltb_false (as_unsigned 32 req.content_len) (length body) le)

  -- A first request that is read whole, and that has among its headers a length, behind it a
  -- non-empty type and behind that a list of cookies, with only headers of other names before and
  -- between them, is given to the request handler with its head, with that length and that type,
  -- with the cookies stored, and with its body, if `std::stoi` reads the length as a number that is
  -- not negative, the body is no longer than that number cut to 32 bits, no name of a cookie holds an
  -- equals sign and no cookie a semicolon. The connection then writes the response that the handler
  -- left, and an exception of the handler is that of the read.
  pub on_read-serve :
      (c : Connection) (h : Head) (body : Text) (w : W) (digits t : Text) (n : ℕ) (p : Text × Text)
      (pairs : List (Text × Text))
      → c.header_buffer ≡ true
      → c.parser ≡ method_start
      → IsUnread c.req
      → c.req.content_len ≡ negsuc 0
      → c.req.content_type ≡ []
      → c.req.cookies ≡ []
      → IsHead h
      → IsAnnounced h.headers digits t (cookie_text p pairs [])
      → stoi digits ≡ ret (pos n)
      → is_empty t ≡ false
      → All IsPair (p ∷ pairs)
      → length body ≤ n % 2 ^ 32
      → (req : Request) × (on_read handle c (lay_out h body) false w ≡ (do
        served ← handle (record req { body = body }) c.res w
        ret (
          record {
            header_buffer = true;
            parser = expecting_newline_3;
            req = served.0;
            res = served.1;
          },
          writing,
          served.2,
        )))
        × IsStored
            (p ∷ pairs)
            (record c.req {
              method = h.method;
              uri = h.target;
              http_version_major = h.major;
              http_version_minor = h.minor;
              headers = h.headers;
              content_len = pos n;
              content_type = t;
            })
            req
  on_read-serve c h body w digits t n p pairs b s u l k o v a e some_type g le =
      let (req, taken, stored) =
        take_headers-IsAnnounced h.headers (with_head c.req h) digits t n p pairs a l k o e
          some_type g in
      let size : req.content_len ≡ pos n = ap (λ r. r.content_len) stored.rest_kept in
      (req, on_read-taken c h body w req b s u v taken (rw size le) ∙ rw b, stored)

  -- A first request that is read whole, whose headers are taken without an exception, and whose body is longer than its announced length, is
  -- answered by the stock response 400, and the handler is not called.
  pub on_read-reject :
      (c : Connection) (h : Head) (body : Text) (w : W) (req : Request)
      → c.header_buffer ≡ true
      → c.parser ≡ method_start
      → IsUnread c.req
      → IsHead h
      → take_headers 0 h.headers (with_head c.req h) ≡ ret req
      → as_unsigned 32 req.content_len < length body
      → on_read handle c (lay_out h body) false w
        ≡ ret (record (parsed c req) { res = stock_response 400 }, writing, w)
  unfolding handle_good
  on_read-reject c h body w req b s u v e lt =
      on_read-lay_out c h body false w b s u v
      ∙ rw (e, handle_good, lt→ltb (as_unsigned 32 req.content_len) (length body) lt)

  -- On a connection that reads a head, bytes that leave the parser without a verdict lead to another
  -- read and change nothing else outside the connection; bytes that come in that read then lead to
  -- what one read of both would have led to, with as much available behind it.
  pub on_read-append :
      (c : Connection) (xs ys : Text) (more available : Bool) (w : W)
      → c.header_buffer ≡ true
      → (parse c.parser c.req xs).result ≡ indeterminate
      → (c' : Connection) × (on_read handle c xs more w ≡ ret (c', reading, w))
        × (on_read handle c' ys available w ≡ on_read handle c (xs ++ ys) available w)
  unfolding on_read
  on_read-append c xs ys more available w b e =
      let p = parse c.parser c.req xs in
      let c' = record c { parser = p.state; req = p.request } in
      (
        c',
        rw (e, on_read) (rw b),
        on_read_header c' ys available w b
            ∙ ap (λ q. after_parse handle c q available w)
                (sym (parse-append c.parser c.req xs ys ∙ ap (λ r. resume_by r p ys) e))
            ∙ sym (on_read_header c (xs ++ ys) available w b),
      )
