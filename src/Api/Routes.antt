-- ===== src/Api/Routes.antt =====
-- src/api/auth.hpp: which use case a request reaches.
use clean_architecture_cpp.Base.{
  ℕ, ◌≡◌, refl, ◌∙◌, ap, Bool, ◌&&◌, ◌==◌, if◌then◌else◌, Bool-cases, inl, inr, Option, none, some,
  [], ◌∷◌, Text, codes, length, drop, split, text_eq, texts_eq, starts_with, >>=-assoc, arith,
}
use clean_architecture_cpp.Base.Pieces.{texts_eq-split}
use clean_architecture_cpp.Entities.User.{Crypto}
use clean_architecture_cpp.Http.Message.{Request, Response}
use clean_architecture_cpp.Http.Router.{answer, make_request_handler, handle_request}
use clean_architecture_cpp.Http.Router.Dispatch.{
  route_pieces, request_pieces, before_query, fits, last_fit, routed, handle_request-routed,
}
use clean_architecture_cpp.Store.{IStore}
use clean_architecture_cpp.UseCases.{IUserDb}
use clean_architecture_cpp.Api.{
  Endpoint, get_user_auth, login_auth, logout_auth, register_auth, get_routers, Backend,
  answer_dispatched, serve_api,
}

-- The endpoints by their methods and names.
unfoldable pub endpoint_of : Text → Text → Option Endpoint
endpoint_of method name =
    if text_eq (codes "POST") method && text_eq (codes "auth/register") name
    then some register_auth
    else if text_eq (codes "POST") method && text_eq (codes "auth/logout") name
    then some logout_auth
    else if text_eq (codes "POST") method && text_eq (codes "auth/login") name
    then some login_auth
    else if text_eq (codes "GET") method && text_eq (codes "user") name
    then some get_user_auth
    else none

-- The endpoint of a request: that of its method and of what follows "/api" and one more byte in its
-- target, before the query.
unfoldable pub served_by : Request → Option Endpoint
served_by req =
    let path = before_query req.uri in
    if starts_with path (codes "/api")
    then (if length path == 4 then none else endpoint_of req.method (drop 5 path))
    else none

fits-name :
    (method name m n : Text) (c : ℕ) (e : Endpoint)
    → fits method (split b'/' name) (record { method = m; path = b'/' ∷ c ∷ n; cb = e })
      ≡ (text_eq m method && text_eq (c ∷ n) name)
unfolding fits route_pieces text_eq
fits-name method name m n c e = ap (λ b. text_eq m method && b) (texts_eq-split b'/' (c ∷ n) name)

-- The text without its first byte.
abbrev tail : Text → Text
tail [] = []
tail (c ∷ s) = s

last_fit-endpoint_of :
    (method name : Text)
    → last_fit method (split b'/' name) get_routers none ≡ endpoint_of method name
unfolding last_fit endpoint_of
last_fit-endpoint_of method name = rw (
  fits-name method name (codes "POST") (tail (codes "auth/register")) b'a' register_auth,
  fits-name method name (codes "POST") (tail (codes "auth/logout")) b'a' logout_auth,
  fits-name method name (codes "POST") (tail (codes "auth/login")) b'a' login_auth,
  fits-name method name (codes "GET") (tail (codes "user")) b'u' get_user_auth,
)

last_fit-nil : (method : Text) → last_fit method [] get_routers none ≡ none
unfolding last_fit fits route_pieces text_eq texts_eq split
last_fit-nil method = ground arith

routed-served_by : (req : Request) → routed get_routers (codes "/api") req ≡ served_by req
unfolding routed served_by request_pieces
routed-served_by req =
    let path = before_query req.uri in
    elim (Bool-cases (starts_with path (codes "/api"))) [
      | inl e ↦ elim (Bool-cases (length path == 4)) [
        | inl f ↦ rw (routed, request_pieces, e, f) (last_fit-nil req.method)
        | inr f ↦ rw (routed, request_pieces, e, f) (last_fit-endpoint_of req.method (drop 5 path))
      ]
      | inr e ↦ rw (routed, request_pieces, e)
    ]

module _ {S D : Type 0} (store : IStore S) (getrandom : ℕ → ℕ → ℕ) (users : IUserDb D)
    (crypto : Crypto) (parse_json : Text → Option (Text × Text))
    (login_request : Text → Option (Bool × Option Text × Option Text)) (encode : Text → Text → Text)
    (decode : Text → Option (Option Text × Option Text)) (dump : Text → Text → Option Text)
    (fuel : ℕ) where
  -- The server runs the endpoint of a request, and answers 404 to a request that has none. The making
  -- of its tree of routes and the look-up in it throw nothing.
  pub serve_api-served_by :
      (req : Request) (res : Response) (b : Backend S D)
      → serve_api store getrandom users crypto parse_json login_request encode decode dump fuel req
          res b
        ≡ answer_dispatched store getrandom users crypto parse_json login_request encode decode dump
            fuel req res b
            (answer res (served_by req))
  unfolding serve_api
  serve_api-served_by req res b =
      >>=-assoc (make_request_handler get_routers (codes "/api")) (λ h. handle_request h req res)
        (answer_dispatched store getrandom users crypto parse_json login_request encode decode dump
          fuel req res b)
      ∙ (rw (
          handle_request-routed get_routers (codes "/api") req res
            (refl, (refl, (refl, (refl, tt))))))
      ∙ ap
          (λ e.
            answer_dispatched store getrandom users crypto parse_json login_request encode decode
              dump fuel req res b (answer res e))
          (routed-served_by req)
