-- ===== src/Api/Warrants/Databases.antt =====
-- The database behind the API: it answers as long as it is up, and each request leaves it up.
use clean_architecture_cpp.Base.{
  ℕ, ◌≡◌, subst, inl, inr, Bool, true, false, ◌||◌, Bool-cases, Option, none, some, Text, is_empty,
}
use clean_architecture_cpp.Entities.Log.{Log, Expected, value, unexpected}
use clean_architecture_cpp.Entities.User.{
  User, Crypto, make_new_user, set_password, hash_password, verify_password,
}
use clean_architecture_cpp.Store.{Run, ran, waits, crashes, IStore, IsStore}
use clean_architecture_cpp.Store.Ensures.{Ensures, Ensures-bind, Ensures-elim, Returns}
use clean_architecture_cpp.Adapters.Wrapper.{WrapperRequest, is_auth, set_session_user, set_status}
use clean_architecture_cpp.UseCases.{
  answer_verified, add_when_hashed, IUserDb, AuthBody, World, parse_body, parse_json_body,
  of_request, of_users, on_request, on_users, respond, answer_login, check_user, check_body, login,
  answer_added, add_hashed, add_with_password, add_made, register_body, register, logout,
  current_user,
}
use clean_architecture_cpp.Api.{
  Endpoint, get_user_auth, login_auth, logout_auth, register_auth, Backend, wrap, execute,
}
use clean_architecture_cpp.Api.Warrants.Traces.{Serves, serves, Reach, here, next, serve_api-ran}

-- What the API relies on: the operations return, and leave the database up.
pub record IsAnswering {D : Type 0} (users : IUserDb D) (Up : D → Type 0) : Type 0 where
  pub finds : (name : Text) (d : D) → Up d → Returns (users.get_user_by_username name d)
  pub finds_up :
      (name : Text) (d : D) → Up d → Ensures (λ a d'. Up d') (users.get_user_by_username name d)
  pub adds : (user : User) (d : D) → Up d → Returns (users.add_user user d)
  pub adds_up : (user : User) (d : D) → Up d → Ensures (λ a d'. Up d') (users.add_user user d)

module _ {S D : Type 0} (Up : D → Type 0) where
  abbrev UpAfter : {A : Type 0} → Run A (World S D) → Type 0
  UpAfter m = Ensures (λ a w. Up w.users) m

  pub of_request-UpAfter :
      {A : Type 0} (d : D) (r : Run A (WrapperRequest S)) → Up d → UpAfter (of_request d r)
  of_request-UpAfter d (ran a x) h = h
  of_request-UpAfter d waits h = tt
  of_request-UpAfter d crashes h = tt

  pub of_users-UpAfter :
      {A : Type 0} (x : WrapperRequest S) (r : Run A D)
      → Ensures (λ a d. Up d) r
      → UpAfter (of_users x r)
  of_users-UpAfter x (ran a d) h = h
  of_users-UpAfter x waits h = tt
  of_users-UpAfter x crashes h = tt

module _ {S D : Type 0} (store : IStore S) (getrandom : ℕ → ℕ → ℕ) (users : IUserDb D)
    (crypto : Crypto) (parse_json : Text → Option (Text × Text))
    (login_request : Text → Option (Bool × Option Text × Option Text)) (encode : Text → Text → Text)
    (decode : Text → Option (Option Text × Option Text)) (dump : Text → Text → Option Text)
    (fuel : ℕ) (Up : D → Type 0) (answering : IsAnswering users Up) where
  abbrev KeepsUp : Run Unit (World S D) → Type 0
  KeepsUp m = Ensures (λ t w. Up w.users) m

  answer_login-KeepsUp :
      (user : User) (same : Expected Bool) (w : World S D)
      → Up w.users
      → KeepsUp (
          answer_login store getrandom users crypto parse_json login_request encode decode fuel user
            same w)
  unfolding answer_login
  answer_login-KeepsUp user (unexpected log) w h = h
  answer_login-KeepsUp user (value false) w h = h
  answer_login-KeepsUp user (value true) w h =
      Ensures-bind (λ a v. Up v.users) (λ t v. Up v.users)
        (on_request (set_session_user store getrandom encode decode fuel user) w) _
        (of_request-UpAfter Up w.users
          (set_session_user store getrandom encode decode fuel user w.request) h)
        (λ log v k. k)

  answer_verified-KeepsUp :
      (user : User) (same : Option (Expected Bool)) (w : World S D)
      → Up w.users
      → KeepsUp (
          answer_verified store getrandom users crypto parse_json login_request encode decode fuel
            user same w)
  unfolding answer_verified
  answer_verified-KeepsUp user none w h = tt
  answer_verified-KeepsUp user (some same) w h = answer_login-KeepsUp user same w h

  check_user-KeepsUp :
      (password : Text) (found : Expected User) (w : World S D)
      → Up w.users
      → KeepsUp (
          check_user store getrandom users crypto parse_json login_request encode decode fuel
            password found w)
  unfolding check_user
  check_user-KeepsUp password (unexpected log) w h = h
  check_user-KeepsUp password (value user) w h =
      answer_verified-KeepsUp user (verify_password crypto password user) w h

  check_body-KeepsUp :
      (body : Option (Expected AuthBody)) (w : World S D)
      → Up w.users
      → KeepsUp (
          check_body store getrandom users crypto parse_json login_request encode decode fuel body
            w)
  unfolding check_body
  check_body-KeepsUp none w h = tt
  check_body-KeepsUp (some (unexpected log)) w h = h
  check_body-KeepsUp (some (value body)) w h =
      elim (Bool-cases (is_empty body.username || is_empty body.password)) [
        | inl e ↦ rw e h
        | inr e ↦ rw e (
            Ensures-bind (λ a v. Up v.users) (λ t v. Up v.users)
              (on_users (users.get_user_by_username body.username) w) _
              (of_users-UpAfter Up w.request (users.get_user_by_username body.username w.users)
                (answering.finds_up body.username w.users h))
              (λ found v k. check_user-KeepsUp body.password found v k))
      ]

  answer_added-KeepsUp :
      (added : Expected Text) (w : World S D)
      → Up w.users
      → KeepsUp (answer_added store getrandom users crypto parse_json added w)
  unfolding answer_added
  answer_added-KeepsUp (value id) w h = h
  answer_added-KeepsUp (unexpected log) w h = h

  add_hashed-KeepsUp :
      (hashed : Option Log × User) (w : World S D)
      → Up w.users
      → KeepsUp (add_hashed store getrandom users crypto parse_json hashed w)
  unfolding add_hashed
  add_hashed-KeepsUp (some log, user) w h = h
  add_hashed-KeepsUp (none, user) w h =
      Ensures-bind (λ a v. Up v.users) (λ t v. Up v.users) (on_users (users.add_user user) w) _
        (of_users-UpAfter Up w.request (users.add_user user w.users)
          (answering.adds_up user w.users h))
        (λ added v k. answer_added-KeepsUp added v k)

  add_when_hashed-KeepsUp :
      (hashed : Option (Option Log × User)) (w : World S D)
      → Up w.users
      → KeepsUp (add_when_hashed store getrandom users crypto parse_json hashed w)
  unfolding add_when_hashed
  add_when_hashed-KeepsUp none w h = tt
  add_when_hashed-KeepsUp (some hashed) w h = add_hashed-KeepsUp hashed w h

  add_with_password-KeepsUp :
      (checked : Option Log × User) (w : World S D)
      → Up w.users
      → KeepsUp (add_with_password store getrandom users crypto parse_json checked w)
  unfolding add_with_password
  add_with_password-KeepsUp (some log, user) w h = h
  add_with_password-KeepsUp (none, user) w h =
      add_when_hashed-KeepsUp (hash_password crypto user) w h

  add_made-KeepsUp :
      (password : Text) (made : Expected User) (w : World S D)
      → Up w.users
      → KeepsUp (add_made store getrandom users crypto parse_json password made w)
  unfolding add_made
  add_made-KeepsUp password (unexpected log) w h = h
  add_made-KeepsUp password (value user) w h =
      add_with_password-KeepsUp (set_password password user) w h

  register_body-KeepsUp :
      (body : Expected AuthBody) (w : World S D)
      → Up w.users
      → KeepsUp (register_body store getrandom users crypto parse_json body w)
  unfolding register_body
  register_body-KeepsUp (unexpected log) w h = h
  register_body-KeepsUp (value body) w h =
      elim (Bool-cases (is_empty body.username || is_empty body.password)) [
        | inl e ↦ rw e h
        | inr e ↦ rw e (add_made-KeepsUp body.password (make_new_user body.username).0 w h)
      ]

  execute-KeepsUp :
      (e : Endpoint) (w : World S D)
      → Up w.users
      → KeepsUp (
          execute store getrandom users crypto parse_json login_request encode decode dump fuel e w)
  unfolding execute login register
  execute-KeepsUp get_user_auth w h =
      of_request-UpAfter Up w.users (current_user store getrandom encode decode dump w.request) h
  execute-KeepsUp login_auth w h =
      Ensures-bind (λ a v. Up v.users) (λ t v. Up v.users) (on_request (is_auth store getrandom) w)
        _ (of_request-UpAfter Up w.users (is_auth store getrandom w.request) h)
        (λ auth v u.
          Ensures-elim (λ t x. Up x.users) auth (respond (set_status 403) v) _ u
            (check_body-KeepsUp (parse_body parse_json login_request v.request.req) v u))
  execute-KeepsUp logout_auth w h =
      of_request-UpAfter Up w.users (logout store getrandom encode decode w.request) h
  execute-KeepsUp register_auth w h =
      Ensures-bind (λ a v. Up v.users) (λ t v. Up v.users) (on_request (is_auth store getrandom) w)
        _ (of_request-UpAfter Up w.users (is_auth store getrandom w.request) h)
        (λ auth v u.
          Ensures-elim (λ t x. Up x.users) auth (respond (set_status 403) v) _ u
            (register_body-KeepsUp (parse_json_body parse_json v.request.req) v u))

  module _ (Ready : S → Type 0) (view : S → Text → Option Text) (laws : IsStore store Ready view)
      (reads : (id name : Text) → decode (encode id name) ≡ some (some id, some name)) where
    Serves-Up :
        {b c : Backend S D}
        → Serves store getrandom users crypto parse_json login_request encode decode dump fuel Ready
            view laws reads b c
        → Up b.users
        → Up c.users
    Serves-Up {b} (serves req res req' res' c lacks e) h =
        elim (serve_api-ran store getrandom users crypto parse_json login_request encode decode dump
          fuel Ready view laws reads (λ f w. Up w.users) req res req' res' b c
          (λ f. execute-KeepsUp f (wrap req res b) h) e) [
            | inl (f, same) ↦ subst (λ (d : Backend S D). Up d.users) same h
            | inr (endpoint, w, f, up, shown, left) ↦
                subst (λ (d : Backend S D). Up d.users) left up
          ]

    -- The database stays up over all requests.
    pub Reach-Up :
        {b c : Backend S D}
        → Reach store getrandom users crypto parse_json login_request encode decode dump fuel Ready
            view laws reads b c
        → Up b.users
        → Up c.users
    Reach-Up here h = h
    Reach-Up (next r s) h = Serves-Up s (Reach-Up r h)
