-- ===== src/Api.antt =====
-- src/api/auth.hpp: the routes of the API and what they call, and the request handler over them. The
-- lazily made global objects are the parameters of the use cases; `World` has the state behind them.
pub mod Routes
pub mod Serving
pub mod Warrants
use clean_architecture_cpp.Base.{
  ℕ, Bool, Option, List, [], ◌∷◌, Text, codes, Throws, ret, throw, never_returns, null_pointer,
  ◌>>=◌,
}
use clean_architecture_cpp.Entities.User.{Crypto}
use clean_architecture_cpp.Http.Message.{Request, Response}
use clean_architecture_cpp.Http.Router.{
  Router, RequestHandler, Dispatched, call, respond, make_request_handler, handle_request,
}
use clean_architecture_cpp.Store.{Run, ran, waits, crashes, IStore}
use clean_architecture_cpp.Adapters.Wrapper.{WrapperRequest}
use clean_architecture_cpp.UseCases.{
  IUserDb, World, on_request, login, register, logout, current_user,
}

-- The callbacks of the routes, by the use case they execute.
pub data Endpoint : Type 0 where
  get_user_auth login_auth logout_auth register_auth : Endpoint

-- `api::Auth::get_routers`
abbrev pub get_routers : List (Router Endpoint)
get_routers =
    record { method = codes "GET"; path = codes "/user"; cb = get_user_auth }
    ∷ record { method = codes "POST"; path = codes "/auth/login"; cb = login_auth }
    ∷ record { method = codes "POST"; path = codes "/auth/logout"; cb = logout_auth }
    ∷ record { method = codes "POST"; path = codes "/auth/register"; cb = register_auth }
    ∷ []

-- What lies behind the server: the store, the database, and how often `getrandom` was called.
pub record Backend (S D : Type 0) : Type 0 where
  pub store : S
  pub users : D
  pub draws : ℕ

-- `WrapperRequest areq(req, res)` in a callback.
abbrev pub wrap : {S D : Type 0} → Request → Response → Backend S D → World S D
wrap req res b = record {
  request = record { req = req; res = res; store = b.store; draws = b.draws };
  users = b.users;
}

abbrev pub backend_of : {S D : Type 0} → World S D → Backend S D
backend_of w = record { store = w.request.store; users = w.users; draws = w.request.draws }

-- What a callback leaves.
abbrev pub unwrap :
    {S D : Type 0} → Run Unit (World S D) → Throws (Request × Response × Backend S D)
unwrap (ran t w) = ret (w.request.req, w.request.res, backend_of w)
unwrap waits = throw never_returns
unwrap crashes = throw null_pointer

module _ {S D : Type 0} (store : IStore S) (getrandom : ℕ → ℕ → ℕ) (users : IUserDb D)
    (crypto : Crypto) (parse_json : Text → Option (Text × Text))
    (login_request : Text → Option (Bool × Option Text × Option Text)) (encode : Text → Text → Text)
    (decode : Text → Option (Option Text × Option Text)) (dump : Text → Text → Option Text)
    (fuel : ℕ) where
  -- The lambdas of the routes.
  unfoldable pub execute : Endpoint → World S D → Run Unit (World S D)
  execute get_user_auth w = on_request (current_user store getrandom encode decode dump) w
  execute login_auth w =
      login store getrandom users crypto parse_json login_request encode decode fuel w
  execute logout_auth w = on_request (logout store getrandom encode decode) w
  execute register_auth w = register store getrandom users crypto parse_json w

  abbrev pub answer_dispatched :
      Request
      → Response
      → Backend S D
      → Dispatched Endpoint
      → Throws (Request × Response × Backend S D)
  answer_dispatched req res b (respond res') = ret (req, res', b)
  answer_dispatched req res b (call e) = unwrap (execute e (wrap req res b))

  -- `handle_request` of the server, whose base path is "/api".
  unfoldable pub serve_api :
      Request → Response → Backend S D → Throws (Request × Response × Backend S D)
  serve_api req res b = do
    handler ← make_request_handler get_routers (codes "/api")
    dispatched ← handle_request handler req res
    answer_dispatched req res b dispatched
