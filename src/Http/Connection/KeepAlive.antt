-- ===== src/Http/Connection/KeepAlive.antt =====
-- connection.cpp: what becomes of a connection after its first request, and of a head whose body is
-- still to come. Nothing resets the parser or the request.
use clean_architecture_cpp.Base.{
  ℕ, ◌≡◌, ◌≢◌, sym, ◌∙◌, ap, Bool, true, false, List, ◌∷◌, Text, codes, Throws, Exception, ret,
  throw, arith,
}
use clean_architecture_cpp.Base.Integer.{negsuc, stoi}
use clean_architecture_cpp.Utils.Strings.{iequals}
use clean_architecture_cpp.Http.Message.{Header, Request, Response}
use clean_architecture_cpp.Http.Parser.{bad, method_start, expecting_newline_3, parse}
use clean_architecture_cpp.Http.Parser.Formats.{Head, IsHead, lay_out}
use clean_architecture_cpp.Http.Parser.RoundTrip.{IsUnread, with_head}
use clean_architecture_cpp.Http.Response.{stock_response}
use clean_architecture_cpp.Http.Connection.{
  Connection, Pending, writing, idle, take_header, take_headers, handle_good, after_parse,
  handle_header_buffer, on_read,
}
use clean_architecture_cpp.Http.Connection.Serving.{parsed, on_read_header, on_read-lay_out}

parse-again :
    (req : Request) (b : ℕ) (bytes : Text)
    → b ≢ 10
    → parse expecting_newline_3 req (b ∷ bytes)
      ≡ record { result = bad; rest = bytes; state = expecting_newline_3; request = req }
unfolding parse
parse-again req b bytes n = ground arith

take_headers-throw :
    (headers : List Header) (req : Request) (name val : Text) (hs : List Header) (ex : Exception)
    → req.content_len ≡ negsuc 0
    → headers ≡ record { name = name; value = val } ∷ hs
    → iequals name (codes "content-length") ≡ true
    → stoi val ≡ throw ex
    → take_headers 0 headers req ≡ throw ex
unfolding take_headers take_header
take_headers-throw headers req name val hs ex l e i t = rw e (ground arith)

module _ {W : Type 0} (handle : Request → Response → W → Throws (Request × Response × W)) where
  -- The parser stays where the first head left it, and refuses any byte but a line feed.
  on_read-again :
      (c : Connection) (b : ℕ) (bytes : Text) (available : Bool) (w : W)
      → c.header_buffer ≡ true
      → c.parser ≡ expecting_newline_3
      → b ≢ 10
      → on_read handle c (b ∷ bytes) available w
        ≡ ret (record c { res = stock_response 400 }, writing, w)
  unfolding handle_header_buffer
  on_read-again c b bytes available w h s n =
      on_read_header handle c (b ∷ bytes) available w h
      ∙ ap (λ p. after_parse handle c p available w)
          (ap (λ st. parse st c.req (b ∷ bytes)) s ∙ parse-again c.req b bytes n)
      ∙ ap (λ st. ret (record c { parser = st; res = stock_response 400 }, writing, w)) (sym s)

  handle_good-keeps :
      (c c' : Connection) (rest : Text) (p : Pending) (w w' : W)
      → handle_good handle c rest false w ≡ ret (c', p, w')
      → (c'.parser ≡ c.parser) × (c'.header_buffer ≡ c.header_buffer) × (p ≡ writing)
  unfolding handle_good
  handle_good-keeps c c' rest p w w' e = ground arith

  -- The connections that further reads lead to, each of bytes that do not begin with a line feed.
  pub data Later (c : Connection) : Connection → Type 0 where
    here : Later c c
    next :
        {d d' : Connection} (p : Pending) (w w' : W) (available : Bool) (b : ℕ) (bytes : Text)
        → Later c d
        → b ≢ 10
        → on_read handle d (b ∷ bytes) available w ≡ ret (d', p, w')
        → Later c d'

  -- What no further read changes.
  abbrev IsKept : Connection → Type 0
  IsKept d = (d.header_buffer ≡ true) × (d.parser ≡ expecting_newline_3)

  on_read-IsKept :
      (d d' : Connection) (b : ℕ) (bytes : Text) (available : Bool) (p : Pending) (w w' : W)
      → IsKept d
      → b ≢ 10
      → on_read handle d (b ∷ bytes) available w ≡ ret (d', p, w')
      → IsKept d'
  on_read-IsKept d d' b bytes available p w w' (k, s) n e =
      let same = sym (on_read-again d b bytes available w k s n) ∙ e in
      (ground (arith, same, k), ground (arith, same, s))

  Later-IsKept : {c d : Connection} → Later c d → IsKept c → IsKept d
  Later-IsKept here k = k
  Later-IsKept (next {d} {d'} p w w' available b bytes l n e) k =
      on_read-IsKept d d' b bytes available p w w' (Later-IsKept l k) n e

  -- After a connection has answered its first request, which was read whole, it answers every further
  -- read that does not begin with a line feed, however many of those came before, by the stock
  -- response 400. The handler is not called.
  pub on_read_twice :
      (c c' d : Connection) (h : Head) (body : Text) (p : Pending) (w w' w'' : W) (b : ℕ)
      (bytes : Text) (available : Bool)
      → c.header_buffer ≡ true
      → c.parser ≡ method_start
      → IsUnread c.req
      → IsHead h
      → on_read handle c (lay_out h body) false w ≡ ret (c', p, w')
      → Later c' d
      → b ≢ 10
      → on_read handle d (b ∷ bytes) available w''
        ≡ ret (record d { res = stock_response 400 }, writing, w'')
  on_read_twice c c' d h body p w w' w'' b bytes available k s u v e later n =
      let good = sym (on_read-lay_out handle c h body false w k s u v) ∙ e in
      let (kept, held, _) = handle_good-keeps (parsed c (with_head c.req h)) c' body p w w' good in
      let (held', kept') = Later-IsKept later (held ∙ k, kept) in
      on_read-again d b bytes available w'' held' kept' n

  -- A first head that is complete, whose headers are taken without an exception, while bytes of its
  -- body are still to be read leaves the connection with
  -- neither a read nor a write under way: the request is not answered, and the rest of its body is
  -- not read.
  pub on_read_stalls :
      (c : Connection) (h : Head) (body : Text) (w : W) (req : Request)
      → c.header_buffer ≡ true
      → c.parser ≡ method_start
      → IsUnread c.req
      → IsHead h
      → take_headers 0 h.headers (with_head c.req h) ≡ ret req
      → on_read handle c (lay_out h body) true w
        ≡ ret (record (parsed c (record req { body = body })) { header_buffer = false }, idle, w)
  unfolding handle_good
  on_read_stalls c h body w req b s u v e =
      on_read-lay_out handle c h body true w b s u v ∙ rw (e, handle_good)

  -- A first request whose first header is a Content-Length that `std::stoi` throws at ends in that
  -- exception: the read handler has no case for it.
  pub on_read_throws :
      (c : Connection) (h : Head) (name val : Text) (hs : List Header) (ex : Exception)
      (body : Text) (available : Bool) (w : W)
      → c.header_buffer ≡ true
      → c.parser ≡ method_start
      → IsUnread c.req
      → c.req.content_len ≡ negsuc 0
      → IsHead h
      → h.headers ≡ record { name = name; value = val } ∷ hs
      → iequals name (codes "content-length") ≡ true
      → stoi val ≡ throw ex
      → on_read handle c (lay_out h body) available w ≡ throw ex
  unfolding handle_good
  on_read_throws c h name val hs ex body available w k s u l v e i t =
      on_read-lay_out handle c h body available w k s u v
      ∙ rw (take_headers-throw h.headers (with_head c.req h) name val hs ex l e i t, handle_good)
