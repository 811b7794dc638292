-- ===== src/Api/Serving.antt =====
-- A login from the bytes that a client sends to what the connection writes: connection.cpp,
-- request_handler.cpp, api/auth.hpp, wrapper.hpp and login.hpp together.
use clean_architecture_cpp.Base.{
  ℕ, ◌+◌, ◌≤◌, ◌<◌, ◌≡◌, ◌∙◌, Bool, true, false, ◌||◌, Option, none, some, Text, is_empty, length,
  Lacks, ret,
}
use clean_architecture_cpp.Entities.Log.{Expected, value}
use clean_architecture_cpp.Entities.User.{User, Crypto}
use clean_architecture_cpp.Http.Message.{Request}
use clean_architecture_cpp.Http.Parser.{method_start}
use clean_architecture_cpp.Http.Parser.Formats.{Head, IsHead, lay_out}
use clean_architecture_cpp.Http.Parser.RoundTrip.{IsUnread, with_head}
use clean_architecture_cpp.Http.Connection.{Connection, writing, take_headers, as_unsigned, on_read}
use clean_architecture_cpp.Http.Connection.Serving.{parsed, on_read-taken}
use clean_architecture_cpp.Store.{ran, IStore, IsStore}
use clean_architecture_cpp.Adapters.Wrapper.{new_id, get_session_id}
use clean_architecture_cpp.Adapters.Wrapper.Sessions.{key_of}
use clean_architecture_cpp.UseCases.{IUserDb, AuthBody, World, parse_body}
use clean_architecture_cpp.UseCases.Login.{CanVerify, LoginLeaves, accepted, login-LoginLeaves}
use clean_architecture_cpp.Api.{login_auth, Backend, wrap, backend_of, execute, serve_api}
use clean_architecture_cpp.Api.Routes.{served_by, serve_api-served_by}

module _ {S D : Type 0} (store : IStore S) (getrandom : ℕ → ℕ → ℕ) (users : IUserDb D)
    (crypto : Crypto) (parse_json : Text → Option (Text × Text))
    (login_request : Text → Option (Bool × Option Text × Option Text)) (encode : Text → Text → Text)
    (decode : Text → Option (Option Text × Option Text)) (dump : Text → Text → Option Text)
    (fuel : ℕ) (Ready : S → Type 0) (view : S → Text → Option Text)
    (laws : IsStore store Ready view) where
  -- A first request that is read whole, with headers that are taken without an exception and a body no
  -- longer than announced, which reaches the login without an open session, under a session id without
  -- a zero byte, with a name and a password that are not empty: the connection writes a response. It is
  -- 204 with a cookie, and a session of the user is open, if the database has found a user with that
  -- password; else it is 401, and the sessions are what they were. The store is ready and keeps its
  -- laws, the database answers, the cryptography returns on the user that was found, and one of the first `fuel` session ids drawn next is free.
  pub on_read-LoginLeaves :
      (c : Connection) (h : Head) (bytes : Text) (b : Backend S D) (req : Request) (body : AuthBody)
      (found : Expected User) (d : D) (k : ℕ)
      → c.header_buffer ≡ true
      → c.parser ≡ method_start
      → IsUnread c.req
      → IsHead h
      → take_headers 0 h.headers (with_head c.req h) ≡ ret req
      → length bytes ≤ as_unsigned 32 req.content_len
      → served_by (record req { body = bytes }) ≡ some login_auth
      → Ready b.store
      → Lacks 0 req.session_id
      → let w = wrap (record req { body = bytes }) c.res b in
        view b.store (key_of (get_session_id store getrandom w.request).0) ≡ none
        → parse_body parse_json login_request (record req { body = bytes }) ≡ some (value body)
        → (is_empty body.username || is_empty body.password) ≡ false
        → users.get_user_by_username body.username b.users ≡ ran found d
        → CanVerify crypto body.password found
        → k < fuel
        → view b.store
            (key_of (new_id (getrandom ((get_session_id store getrandom w.request).1.draws + k))))
          ≡ none
        → (w' : World S D) × (on_read
              (serve_api store getrandom users crypto parse_json login_request encode decode dump
                fuel)
              c
              (lay_out h bytes)
              false
              b
            ≡ ret
                (record (parsed c w'.request.req) { res = w'.request.res }, writing, backend_of w'))
          × LoginLeaves store getrandom users crypto parse_json login_request encode decode fuel
              Ready view laws
              (accepted crypto body.password found)
              w
              w'
          × (w'.users ≡ d)
  unfolding execute
  on_read-LoginLeaves c h bytes b req body found d k hb ms u v e le served r lacks out parse full
        answer n l free =
      let req' : Request = record req { body = bytes } in
      let (w', same, leaves, kept) =
        login-LoginLeaves store getrandom users crypto parse_json login_request encode decode fuel
          Ready view laws (wrap req' c.res b) body found d k r lacks out parse full answer n l
          free in
      (
        w',
        on_read-taken
              (serve_api store getrandom users crypto parse_json login_request encode decode dump
                fuel)
              c h bytes b req hb ms u v e le
            ∙ (rw
                (serve_api-served_by store getrandom users crypto parse_json login_request encode
                  decode dump fuel req' c.res b)
                (rw served (rw same))),
        leaves,
        kept,
      )
