-- ===== src/Api/Warrants/Logins.antt =====
-- login.hpp: it keeps the sessions warranted.
use clean_architecture_cpp.Base.{
  ℕ, ◌≡◌, refl, sym, subst, inl, inr, Bool, true, false, ◌||◌, Bool-cases, Option, none, some, Text,
  is_empty,
}
use clean_architecture_cpp.Entities.Log.{Expected, value, unexpected}
use clean_architecture_cpp.Entities.User.{User, Crypto, verify_password}
use clean_architecture_cpp.Http.Message.{Response}
use clean_architecture_cpp.Store.{Run, ran, waits, crashes, IStore, IsStore}
use clean_architecture_cpp.Store.Ensures.{Ensures, Ensures-bind, Ensures-weaken, Ensures-elim}
use clean_architecture_cpp.Adapters.Wrapper.{WrapperRequest, is_auth, set_session_user, set_status}
use clean_architecture_cpp.UseCases.{
  answer_verified, IUserDb, AuthBody, World, parse_body, of_request, of_users, on_request, on_users,
  respond, answer_login, check_user, check_body, login,
}
use clean_architecture_cpp.Api.Warrants.{IsCredited, IsSound}
use clean_architecture_cpp.Api.Warrants.Sessions.{Keeps, is_auth-Sound, set_session_user-Sound}

module _ {S D : Type 0} where
  pub on_request-Ensures :
      {A : Type 0} (P : A → WrapperRequest S → Type 0) (d : D) (r : Run A (WrapperRequest S))
      → Ensures P r
      → Ensures (λ a w'. P a w'.request) (of_request d r)
  on_request-Ensures P d (ran a x) h = h
  on_request-Ensures P d waits h = tt
  on_request-Ensures P d crashes h = tt

  -- What the database answers, over the same request.
  pub on_users-Ensures :
      {A : Type 0} (x : WrapperRequest S) (r : Run A D)
      → Ensures (λ a w'. (w'.request ≡ x) × (r ≡ ran a w'.users)) (of_users x r)
  on_users-Ensures x (ran a d) = (refl, refl)
  on_users-Ensures x waits = tt
  on_users-Ensures x crashes = tt

module _ {S D : Type 0} (store : IStore S) (getrandom : ℕ → ℕ → ℕ) (users : IUserDb D)
    (crypto : Crypto) (encode : Text → Text → Text)
    (decode : Text → Option (Option Text × Option Text)) (Ready : S → Type 0)
    (view : S → Text → Option Text) (laws : IsStore store Ready view) where
  -- The first step of a use case: whether the request is authenticated.
  pub is_auth-SoundWorld :
      (w : World S D)
      → IsSound users crypto encode Ready view w.request
      → Ensures
          (λ auth w'. IsSound users crypto encode Ready view w'.request)
          (on_request (is_auth store getrandom) w)
  is_auth-SoundWorld w h =
      on_request-Ensures (λ auth x. IsSound users crypto encode Ready view x) w.users
        (is_auth store getrandom w.request)
        (Ensures-weaken
          (λ auth y. Keeps store getrandom users crypto encode decode Ready view laws w.request y)
          (λ auth y. IsSound users crypto encode Ready view y) (is_auth store getrandom w.request)
          (is_auth-Sound store getrandom users crypto encode decode Ready view laws w.request h)
          (λ auth y (sound, same). sound))

module _ {S D : Type 0} (store : IStore S) (getrandom : ℕ → ℕ → ℕ) (users : IUserDb D)
    (crypto : Crypto) (parse_json : Text → Option (Text × Text))
    (login_request : Text → Option (Bool × Option Text × Option Text)) (encode : Text → Text → Text)
    (decode : Text → Option (Option Text × Option Text)) (dump : Text → Text → Option Text)
    (fuel : ℕ) (Ready : S → Type 0) (view : S → Text → Option Text)
    (laws : IsStore store Ready view) where
  abbrev pub SoundWorld : World S D → Type 0
  SoundWorld w = IsSound users crypto encode Ready view w.request

  -- A change of the response alone.
  pub respond-Sound :
      (f : Response → Response) (w : World S D)
      → SoundWorld w
      → Ensures (λ t w'. SoundWorld w') (respond f w)
  respond-Sound f w h = record { ready = h.ready; plain = h.plain; warranted = h.warranted }

  answer_login-Sound :
      (user : User) (name password : Text) (d d' : D) (w : World S D)
      → users.get_user_by_username name d ≡ ran (value user) d'
      → SoundWorld w
      → (same : Expected Bool) → verify_password crypto password user ≡ some same
      → Ensures
          (λ t w'. SoundWorld w')
          (answer_login store getrandom users crypto parse_json login_request encode decode fuel
            user same w)
  unfolding answer_login
  answer_login-Sound user name password d d' w found h (unexpected log) e =
      respond-Sound (set_status 401) w h
  answer_login-Sound user name password d d' w found h (value false) e =
      respond-Sound (set_status 401) w h
  answer_login-Sound user name password d d' w found h (value true) e =
      let credit : IsCredited users crypto user = record {
        name = name;
        password = password;
        before = d;
        after = d';
        found = found;
        verified = e;
      } in
      Ensures-bind (λ log w'. SoundWorld w') (λ t w'. SoundWorld w')
        (on_request (set_session_user store getrandom encode decode fuel user) w) _
        (on_request-Ensures (λ log x. IsSound users crypto encode Ready view x) w.users
          (set_session_user store getrandom encode decode fuel user w.request)
          (set_session_user-Sound store getrandom users crypto encode decode Ready view laws fuel
            user w.request h credit))
        (λ log w' h'. respond-Sound (set_status 204) w' h')

  answer_verified-Sound :
      (user : User) (name password : Text) (d d' : D) (w : World S D)
      → users.get_user_by_username name d ≡ ran (value user) d'
      → SoundWorld w
      → (same : Option (Expected Bool)) → verify_password crypto password user ≡ same
      → Ensures
          (λ t w'. SoundWorld w')
          (answer_verified store getrandom users crypto parse_json login_request encode decode fuel
            user same w)
  unfolding answer_verified
  answer_verified-Sound user name password d d' w found h none e = tt
  answer_verified-Sound user name password d d' w found h (some same) e =
      answer_login-Sound user name password d d' w found h same e

  check_user-Sound :
      (name password : Text) (found : Expected User) (d d' : D) (w : World S D)
      → users.get_user_by_username name d ≡ ran found d'
      → SoundWorld w
      → Ensures
          (λ t w'. SoundWorld w')
          (check_user store getrandom users crypto parse_json login_request encode decode fuel
            password found w)
  unfolding check_user
  check_user-Sound name password (unexpected log) d d' w e h = respond-Sound (set_status 401) w h
  check_user-Sound name password (value user) d d' w e h =
      answer_verified-Sound user name password d d' w e h (verify_password crypto password user)
        refl

  check_body-Sound :
      (body : Option (Expected AuthBody)) (w : World S D)
      → SoundWorld w
      → Ensures
          (λ t w'. SoundWorld w')
          (check_body store getrandom users crypto parse_json login_request encode decode fuel body
            w)
  unfolding check_body
  check_body-Sound none w h = tt
  check_body-Sound (some (unexpected log)) w h = respond-Sound (set_status 401) w h
  check_body-Sound (some (value body)) w h =
      elim (Bool-cases (is_empty body.username || is_empty body.password)) [
        | inl e ↦ rw e (respond-Sound (set_status 401) w h)
        | inr e ↦ rw e (
            Ensures-bind
              (λ found w'.
                (w'.request ≡ w.request)
                × (users.get_user_by_username body.username w.users ≡ ran found w'.users))
              (λ t w'. SoundWorld w') (on_users (users.get_user_by_username body.username) w) _
              (on_users-Ensures w.request (users.get_user_by_username body.username w.users))
              (λ found w' (same, answer).
                check_user-Sound body.username body.password found w.users w'.users w' answer
                  (subst (IsSound users crypto encode Ready view) (sym same) h)))
      ]

  pub login-Sound :
      (w : World S D)
      → SoundWorld w
      → Ensures
          (λ t w'. SoundWorld w')
          (login store getrandom users crypto parse_json login_request encode decode fuel w)
  unfolding login
  login-Sound w h =
      Ensures-bind (λ auth w'. SoundWorld w') (λ t w'. SoundWorld w')
        (on_request (is_auth store getrandom) w) _
        (is_auth-SoundWorld store getrandom users crypto encode decode Ready view laws w h)
        (λ auth w' h'.
          Ensures-elim (λ t v. SoundWorld v) auth (respond (set_status 403) w') _
            (respond-Sound (set_status 403) w' h')
            (check_body-Sound (parse_body parse_json login_request w'.request.req) w' h'))
