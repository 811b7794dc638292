-- ===== src/UseCases.antt =====
-- src/use-cases/auth: what the API does on a request. The store is any implementation of `IStore`, the
-- database of users any implementation of `IUserDb`; json, flatbuffers and the cryptography are
-- parameters. What is only logged is left out.
pub mod Login
pub mod Register
pub mod Logout
pub mod Current
pub mod Singletons
use clean_architecture_cpp.Base.{
  ℕ, Bool, true, false, ◌||◌, if◌then◌else◌, Option, none, some, Text, codes, is_empty, text_eq,
}
use clean_architecture_cpp.Entities.Log.{Log, empty_log, Expected, value, unexpected}
use clean_architecture_cpp.Entities.User.{
  User, Crypto, verify_password, make_new_user, set_password, hash_password,
}
use clean_architecture_cpp.Http.Message.{Request, Response, application_json}
use clean_architecture_cpp.Store.{Run, ran, waits, crashes, ◌>>=◌, IStore}
use clean_architecture_cpp.Store.Redis.{c_string}
use clean_architecture_cpp.Adapters.Wrapper.{
  WrapperRequest, is_auth, set_session_user, get_session_user, clear_session_user, set_status,
  set_body, set_body_rows, set_content_type,
}

-- db/user/build.hpp: the operations on the users.
pub record IUserDb (D : Type 0) : Type 0 where
  pub get_user_by_username : Text → D → Run (Expected User) D
  pub add_user : User → D → Run (Expected Text) D

-- `LoginAuthBody` and `RegisterAuthBody`
pub record AuthBody : Type 0 where
  pub username : Text
  pub password : Text

-- A request and the state of the database.
pub record World (S D : Type 0) : Type 0 where
  pub request : WrapperRequest S
  pub users : D

abbrev pub failed_body : Text → Expected AuthBody
failed_body msg = unexpected (record empty_log { msg = msg })

module _ (parse_json : Text → Option (Text × Text)) where
  abbrev pub json_body : Option (Text × Text) → Expected AuthBody
  json_body none = failed_body (codes "Invalid body")
  json_body (some (username, password)) =
      value (record { username = username; password = password })

  -- `RegisterAuthUseCase::parse_body`
  unfoldable pub parse_json_body : Request → Expected AuthBody
  parse_json_body req =
      if is_empty req.body
      then failed_body (codes "Empty Body")
      else json_body (parse_json req.body)

  -- The strings of a flatbuffer, behind pointers that can be null. One that was not verified has its
  -- password read for the debug log, and is used all the same: `none` is a read out of its bounds.
  module _ (login_request : Text → Option (Bool × Option Text × Option Text)) where
    abbrev pub flat_body : Option (Bool × Option Text × Option Text) → Option (Expected AuthBody)
    flat_body none = none
    flat_body (some (false, username, none)) = none
    flat_body (some (verified, some username, some password)) =
        some (value (record { username = c_string username; password = c_string password }))
    flat_body (some (verified, username, password)) = some (failed_body (codes "Invalid body"))

    -- `LoginAuthUseCase::parse_body`; `none` is a read through a null pointer or out of bounds.
    unfoldable pub parse_body : Request → Option (Expected AuthBody)
    parse_body req =
        if is_empty req.body
        then some (failed_body (codes "Empty Body"))
        else if text_eq req.content_type (codes "application/flatbuffer")
        then flat_body (login_request req.body)
        else some (json_body (parse_json req.body))

module _ {S D : Type 0} where
  abbrev pub of_request : {A : Type 0} → D → Run A (WrapperRequest S) → Run A (World S D)
  of_request d (ran a x) = ran a (record { request = x; users = d })
  of_request d waits = waits
  of_request d crashes = crashes

  abbrev pub on_request :
      {A : Type 0} → (WrapperRequest S → Run A (WrapperRequest S)) → World S D → Run A (World S D)
  on_request op w = of_request w.users (op w.request)

  abbrev pub of_users : {A : Type 0} → WrapperRequest S → Run A D → Run A (World S D)
  of_users x (ran a d) = ran a (record { request = x; users = d })
  of_users x waits = waits
  of_users x crashes = crashes

  abbrev pub on_users : {A : Type 0} → (D → Run A D) → World S D → Run A (World S D)
  on_users op w = of_users w.request (op w.users)

  -- A change of the response, with which the use case returns.
  abbrev pub respond : (Response → Response) → World S D → Run Unit (World S D)
  respond f w = ran tt (record w { request = record w.request { res = f w.request.res } })

module _ {S D : Type 0} (store : IStore S) (getrandom : ℕ → ℕ → ℕ) (users : IUserDb D)
    (crypto : Crypto) (parse_json : Text → Option (Text × Text)) where
  module _ (login_request : Text → Option (Bool × Option Text × Option Text))
      (encode : Text → Text → Text) (decode : Text → Option (Option Text × Option Text))
      (fuel : ℕ) where
    -- `LoginAuthUseCase::execute` from the answer of the cryptography on.
    unfoldable pub answer_login : User → Expected Bool → World S D → Run Unit (World S D)
    answer_login user (unexpected log) w = respond (set_status 401) w
    answer_login user (value false) w = respond (set_status 401) w
    answer_login user (value true) w =
        on_request (set_session_user store getrandom encode decode fuel user) w >>= λ log w'.
        respond (set_status 204) w'

    -- From the call of the cryptography on, which may end the process.
    unfoldable pub answer_verified :
        User → Option (Expected Bool) → World S D → Run Unit (World S D)
    answer_verified user none w = crashes
    answer_verified user (some verified) w = answer_login user verified w

    -- From the answer of the database on.
    unfoldable pub check_user : Text → Expected User → World S D → Run Unit (World S D)
    check_user password (unexpected log) w = respond (set_status 401) w
    check_user password (value user) w =
        answer_verified user (verify_password crypto password user) w

    -- From the body of the request on.
    unfoldable pub check_body : Option (Expected AuthBody) → World S D → Run Unit (World S D)
    check_body none w = crashes
    check_body (some (unexpected log)) w = respond (set_status 401) w
    check_body (some (value body)) w =
        if is_empty body.username || is_empty body.password
        then respond (set_status 401) w
        else on_users (users.get_user_by_username body.username) w >>= check_user body.password

    -- `LoginAuthUseCase::execute`
    unfoldable pub login : World S D → Run Unit (World S D)
    login w = on_request (is_auth store getrandom) w >>= λ auth w'. elim auth [
      | true ↦ respond (set_status 403) w'
      | false ↦ check_body (parse_body parse_json login_request w'.request.req) w'
    ]

  abbrev pub bad_request : (Response → Response) → World S D → Run Unit (World S D)
  bad_request f w = respond (λ res. set_status 400 (f res)) w

  -- `RegisterAuthUseCase::execute` from the answer of the database on.
  unfoldable pub answer_added : Expected Text → World S D → Run Unit (World S D)
  answer_added (value id) w = respond (λ res. set_status 201 (set_body id res)) w
  answer_added (unexpected error) w =
      bad_request
        (set_body (
          if text_eq error.db_contraint (codes "users_username_key")
          then codes "Username already taken"
          else error.msg))
        w

  -- From the answer of `hash_password` on.
  unfoldable pub add_hashed : Option Log × User → World S D → Run Unit (World S D)
  add_hashed (some log, user) w = bad_request (set_body (codes "Could not hash")) w
  add_hashed (none, user) w = on_users (users.add_user user) w >>= answer_added

  -- From the call of `hash_password` on, which may end the process.
  unfoldable pub add_when_hashed : Option (Option Log × User) → World S D → Run Unit (World S D)
  add_when_hashed none w = crashes
  add_when_hashed (some hashed) w = add_hashed hashed w

  -- From the answer of `set_password` on.
  unfoldable pub add_with_password : Option Log × User → World S D → Run Unit (World S D)
  add_with_password (some log, user) w = bad_request (set_body (codes "Invalid password")) w
  add_with_password (none, user) w = add_when_hashed (hash_password crypto user) w

  -- From the answer of `make_user` on.
  unfoldable pub add_made : Text → Expected User → World S D → Run Unit (World S D)
  add_made password (unexpected log) w = bad_request (set_body_rows log.errors) w
  add_made password (value user) w = add_with_password (set_password password user) w

  -- From the body of the request on.
  unfoldable pub register_body : Expected AuthBody → World S D → Run Unit (World S D)
  register_body (unexpected log) w = bad_request (set_body log.msg) w
  register_body (value body) w =
      if is_empty body.username || is_empty body.password
      then bad_request (set_body (codes "Empty username/password")) w
      else add_made body.password (make_new_user body.username).0 w

  -- `RegisterAuthUseCase::execute`
  unfoldable pub register : World S D → Run Unit (World S D)
  register w = on_request (is_auth store getrandom) w >>= λ auth w'. elim auth [
    | true ↦ respond (set_status 403) w'
    | false ↦ register_body (parse_json_body parse_json w'.request.req) w'
  ]

-- A change of the response of a request alone.
abbrev pub answer_with :
    {S : Type 0} → (Response → Response) → WrapperRequest S → Run Unit (WrapperRequest S)
answer_with f x = ran tt (record x { res = f x.res })

module _ {S : Type 0} (store : IStore S) (getrandom : ℕ → ℕ → ℕ) (encode : Text → Text → Text)
    (decode : Text → Option (Option Text × Option Text)) where
  -- `LogoutAuthUseCase::execute`
  unfoldable pub logout : WrapperRequest S → Run Unit (WrapperRequest S)
  logout x = is_auth store getrandom x >>= λ auth x'. elim auth [
    | false ↦ answer_with (set_status 401) x'
    | true ↦ clear_session_user store getrandom x' >>= λ cleared y. elim cleared [
      | true ↦ answer_with (set_status 204) y
      | false ↦ get_session_user store getrandom encode decode y >>= λ user z.
          answer_with (set_status 500) z
    ]
  ]

  -- The text of the json object, or `none` for strings that are no UTF-8, on which `dump` throws in
  -- a function that must not.
  module _ (dump : Text → Text → Option Text) where
    abbrev pub answer_dumped : Option Text → WrapperRequest S → Run Unit (WrapperRequest S)
    answer_dumped none x = crashes
    answer_dumped (some body) x =
        answer_with (λ res. set_status 200 (set_content_type application_json (set_body body res)))
          x

    abbrev pub answer_user : Option User → WrapperRequest S → Run Unit (WrapperRequest S)
    answer_user none x = answer_with (set_status 500) x
    answer_user (some user) x = answer_dumped (dump user.id user.username) x

    -- `UserAuthUseCase::execute`
    unfoldable pub current_user : WrapperRequest S → Run Unit (WrapperRequest S)
    current_user x = is_auth store getrandom x >>= λ auth x'. elim auth [
      | false ↦ answer_with (set_status 401) x'
      | true ↦ get_session_user store getrandom encode decode x' >>= answer_user
    ]
