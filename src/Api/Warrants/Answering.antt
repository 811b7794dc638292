-- ===== src/Api/Warrants/Answering.antt =====
-- auth.hpp of the API over all use cases: every request is answered.
use clean_architecture_cpp.Base.{
  ℕ, ◌+◌, ◌<◌, ◌≡◌, ◌≢◌, refl, sym, ◌∙◌, ap, subst, inl, inr, Bool, ◌||◌, Bool-cases, Option,
  Option-cases, none, some, Text, is_empty, Lacks, ret,
}
use clean_architecture_cpp.Entities.Log.{Expected, value, unexpected}
use clean_architecture_cpp.Entities.User.{IsReturning, verify_password, User, Crypto}
use clean_architecture_cpp.Http.Message.{Request, Response}
use clean_architecture_cpp.Http.Router.{not_found}
use clean_architecture_cpp.Store.{Run, ran, waits, crashes, IStore, IsStore}
use clean_architecture_cpp.Store.Redis.{c_string}
use clean_architecture_cpp.Store.Ensures.{Returns, Returns-bind, Returns-elim}
use clean_architecture_cpp.Adapters.Wrapper.{new_id, WrapperRequest, get_session_id, set_status}
use clean_architecture_cpp.Adapters.Wrapper.Sessions.{key_of}
use clean_architecture_cpp.Adapters.Wrapper.Checking.{is_auth-IsChecked}
use clean_architecture_cpp.UseCases.{
  IUserDb, AuthBody, World, parse_body, on_users, respond, check_user, check_body, login, logout,
  current_user,
}
use clean_architecture_cpp.UseCases.Login.{
  CanVerify, check_user-LoginLeaves, parse_body-get_session_id,
}
use clean_architecture_cpp.Api.{
  Endpoint, get_user_auth, login_auth, logout_auth, register_auth, Backend, wrap, backend_of,
  unwrap, execute, serve_api,
}
use clean_architecture_cpp.Api.Routes.{served_by, serve_api-served_by}
use clean_architecture_cpp.Api.Warrants.{IsCredited, IsWarranted, IsSound}
use clean_architecture_cpp.Api.Warrants.Logins.{on_users-Ensures}
use clean_architecture_cpp.Api.Warrants.Databases.{IsAnswering, Reach-Up}
use clean_architecture_cpp.Api.Warrants.Returning.{
  on_request-Returns, on_users-Returns, logout-Returns, current_user-Returns, register-Returns,
}
use clean_architecture_cpp.Api.Warrants.Traces.{Reach, Reach-IsSafe, wrap-Sound}

module _ {S D : Type 0} (store : IStore S) (getrandom : ℕ → ℕ → ℕ) (users : IUserDb D)
    (crypto : Crypto) (parse_json : Text → Option (Text × Text))
    (login_request : Text → Option (Bool × Option Text × Option Text)) (encode : Text → Text → Text)
    (decode : Text → Option (Option Text × Option Text)) (dump : Text → Text → Option Text)
    (fuel : ℕ) (Ready : S → Type 0) (view : S → Text → Option Text)
    (laws : IsStore store Ready view) where
  -- One of the ids that a loop draws next is free.
  abbrev pub IsFree : WrapperRequest S → Type 0
  IsFree x =
      (k : ℕ) × (k < fuel) × (view x.store (key_of (new_id (getrandom (x.draws + k)))) ≡ none)

  module _ (Up : D → Type 0) (answering : IsAnswering users Up)
      (returning : IsReturning crypto) where
    can_verify : (password : Text) (found : Expected User) → CanVerify crypto password found
    unfolding verify_password
    can_verify password (unexpected log) = tt
    can_verify password (value user) = returning.verifies password user.hashed

    check_user-Returns :
        (password : Text) (found : Expected User) (w : World S D)
        → Ready w.request.store
        → IsFree w.request
        → Returns (
            check_user store getrandom users crypto parse_json login_request encode decode fuel
              password found w)
    check_user-Returns password found w r (k, l, free) =
        let (w', same, leaves, kept) =
          check_user-LoginLeaves store getrandom users crypto parse_json login_request encode decode
            fuel Ready view laws password found k w (can_verify password found) r l free in
        rw same tt

    check_body-Returns :
        (body : Option (Expected AuthBody)) (w : World S D)
        → body ≢ none
        → Ready w.request.store
        → IsFree w.request
        → Up w.users
        → Returns (
            check_body store getrandom users crypto parse_json login_request encode decode fuel body
              w)
    unfolding check_body
    check_body-Returns none w n r f u = absurd (n refl)
    check_body-Returns (some (unexpected log)) w n r f u = tt
    check_body-Returns (some (value body)) w n r f u =
        elim (Bool-cases (is_empty body.username || is_empty body.password)) [
          | inl e ↦ rw e tt
          | inr e ↦ rw e (
              Returns-bind
                (λ found v.
                  (v.request ≡ w.request)
                  × (users.get_user_by_username body.username w.users ≡ ran found v.users))
                (on_users (users.get_user_by_username body.username) w) _
                (on_users-Returns w.request (users.get_user_by_username body.username w.users)
                  (answering.finds body.username w.users u))
                (on_users-Ensures w.request (users.get_user_by_username body.username w.users))
                (λ found v (same, answered).
                  check_user-Returns body.password found v
                    (subst (λ (x : WrapperRequest S). Ready x.store) (sym same) r)
                    (subst IsFree (sym same) f)))
        ]

    login-Returns :
        (w : World S D)
        → IsSound users crypto encode Ready view w.request
        → parse_body parse_json login_request w.request.req ≢ none
        → IsFree (record (get_session_id store getrandom w.request).1 { store = w.request.store })
        → Up w.users
        → Returns (login store getrandom users crypto parse_json login_request encode decode fuel w)
    unfolding login
    login-Returns w h n (k, l, free) up =
        let c = is_auth-IsChecked store getrandom Ready view laws w.request h.ready h.plain in
        let v : World S D = record { request = c.after; users = w.users } in
        let parsed =
          ap (parse_body parse_json login_request) c.req_same
          ∙ parse_body-get_session_id store getrandom users crypto parse_json login_request encode
              decode fuel Ready view laws w.request in
        let free' =
          c.kept (key_of (new_id (getrandom (c.after.draws + k)))) ∙ rw c.draws_same free in
        rw c.same (
          Returns-elim _ (respond (set_status 403) v) _ tt (
            check_body-Returns (parse_body parse_json login_request c.after.req) v
              (λ e. n (sym parsed ∙ e)) c.ready (k, l, free') up))

    module _ (reads : (id name : Text) → decode (encode id name) ≡ some (some id, some name))
        (prints : (user : User)
          → IsCredited users crypto user
          → dump (c_string user.id) (c_string user.username) ≢ none) where
      -- What a login relies on beside.
      abbrev pub CanLogin : World S D → Endpoint → Type 0
      CanLogin w get_user_auth = Unit
      CanLogin w login_auth =
          (parse_body parse_json login_request w.request.req ≢ none)
          × IsFree (record (get_session_id store getrandom w.request).1 { store = w.request.store })
      CanLogin w logout_auth = Unit
      CanLogin w register_auth = Unit

      execute-Returns :
          (e : Endpoint) (w : World S D)
          → IsSound users crypto encode Ready view w.request
          → CanLogin w e
          → Up w.users
          → Returns (
              execute store getrandom users crypto parse_json login_request encode decode dump fuel
                e w)
      unfolding execute
      execute-Returns get_user_auth w h c up =
          on_request-Returns w.users (current_user store getrandom encode decode dump w.request) (
            current_user-Returns store getrandom users crypto encode decode Ready view laws reads
              dump prints w.request h)
      execute-Returns login_auth w h (n, f) up = login-Returns w h n f up
      execute-Returns logout_auth w h c up =
          on_request-Returns w.users (logout store getrandom encode decode w.request) (
            logout-Returns store getrandom users crypto encode decode Ready view laws reads
              w.request h)
      execute-Returns register_auth w h c up =
          register-Returns store getrandom users crypto encode decode Ready view laws parse_json Up
            answering returning w h up

      unwrap-Returns :
          (r : Run Unit (World S D))
          → Returns r
          → (req : Request) × (res : Response) × (b : Backend S D) × (unwrap r ≡ ret (req, res, b))
      unwrap-Returns (ran t w) h = (w.request.req, w.request.res, backend_of w, refl)
      unwrap-Returns waits h = absurd h
      unwrap-Returns crashes h = absurd h

      -- What a login relies on, if the request is for one.
      CanLogin-of :
          (e : Endpoint) (req : Request) (w : World S D)
          → served_by req ≡ some e
          → (served_by req ≡ some login_auth → CanLogin w login_auth)
          → CanLogin w e
      CanLogin-of get_user_auth req w f h = tt
      CanLogin-of login_auth req w f h = h f
      CanLogin-of logout_auth req w f h = tt
      CanLogin-of register_auth req w f h = tt

  -- Whatever requests were answered one after another, from a store that is ready, keeps its laws and
  -- is empty, every next request, under a session id without a zero byte, is answered without an
  -- exception, if the database is up at first and, while it is up, answers and stays up, the cryptography
  -- never ends the process, flatbuffers reads back what it writes, json writes the users who were credited, and, where the request is for
  -- the login, no string of a flatbuffer in its body is missing or read out of bounds and one of the session ids drawn within
  -- the fuel is free.
  pub serve_api-answers :
      {b c : Backend S D} (req : Request) (res : Response)
      → (Up : D → Type 0) → IsAnswering users Up
      → IsReturning crypto
      → (reads : (id name : Text) → decode (encode id name) ≡ some (some id, some name))
      → ((user : User)
          → IsCredited users crypto user
          → dump (c_string user.id) (c_string user.username) ≢ none)
      → Ready b.store
      → Up b.users
      → ((j : Text) → view b.store j ≡ none)
      → Reach store getrandom users crypto parse_json login_request encode decode dump fuel Ready
          view laws reads b c
      → Lacks 0 req.session_id
      → (served_by req ≡ some login_auth
          → (parse_body parse_json login_request req ≢ none)
            × IsFree (record (get_session_id store getrandom (wrap req res c).request).1 {
              store = c.store;
            }))
      → (req' : Request) × (res' : Response) × (d : Backend S D) × (serve_api store getrandom users
            crypto parse_json login_request encode decode dump fuel req res c
          ≡ ret (req', res', d))
  serve_api-answers {b} {c} req res Up answering returning reads prints r up empty reach lacks can =
      let safe =
        Reach-IsSafe store getrandom users crypto parse_json login_request encode decode dump fuel
          Ready view laws reads reach
          (record {
            ready = r;
            warranted = λ j. subst (IsWarranted users crypto encode) (sym (empty j)) tt;
          }) in
      let sound =
        wrap-Sound store getrandom users crypto parse_json login_request encode decode dump fuel
          Ready view laws reads req res c lacks safe in
      let via =
        serve_api-served_by store getrandom users crypto parse_json login_request encode decode dump
          fuel req res c in
      elim (Option-cases (served_by req)) [
        | inl f ↦ (req, not_found res, c, via ∙ rw f refl)
        | inr (e, f) ↦
            let (req', res', d, same) =
              unwrap-Returns Up answering returning reads prints
                (execute store getrandom users crypto parse_json login_request encode decode dump
                  fuel e (wrap req res c))
                (execute-Returns Up answering returning reads prints e (wrap req res c) sound
                  (CanLogin-of Up answering returning reads prints e req (wrap req res c) f can)
                  (Reach-Up store getrandom users crypto parse_json login_request encode decode dump
                    fuel Up answering Ready view laws reads reach up)) in
            (req', res', d, via ∙ rw f same)
      ]
