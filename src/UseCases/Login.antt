-- ===== src/UseCases/Login.antt =====
-- login.hpp: who gets a session.
use clean_architecture_cpp.Base.{
  ◌≢◌, ℕ, ◌+◌, ◌<◌, ◌≡◌, refl, sym, ◌∙◌, ap, Bool, true, false, ◌||◌, if◌then◌else◌, Bool-cases,
  inl, inr, Option, none, some, Text, is_empty, push_back, Lacks, text_eq,
}
use clean_architecture_cpp.Base.Integer.{pos}
use clean_architecture_cpp.Entities.Log.{Expected, value, unexpected}
use clean_architecture_cpp.Entities.User.{User, Crypto, verify_password}
use clean_architecture_cpp.Http.Message.{Response}
use clean_architecture_cpp.Store.{ran, IStore, IsStore}
use clean_architecture_cpp.Adapters.Wrapper.{
  new_id, WrapperRequest, session_cookie, get_session_id, set_status,
}
use clean_architecture_cpp.Adapters.Wrapper.Sessions.{key_of, set_session_user-HasOpened}
use clean_architecture_cpp.Adapters.Wrapper.Checking.{is_auth-IsChecked}
use clean_architecture_cpp.UseCases.{
  answer_verified, IUserDb, AuthBody, World, parse_body, answer_login, check_user, check_body,
  login,
}

-- The user whose password was verified.
abbrev pub verified : User → Option (Expected Bool) → Option User
verified user (some (value true)) = some user
verified user _ = none

-- The user that a password is that of, by what the database has found.
abbrev pub accepted : Crypto → Text → Expected User → Option User
accepted crypto password (unexpected log) = none
accepted crypto password (value user) = verified user (verify_password crypto password user)

-- The verification of a password for what the database has found does not end the process.
abbrev pub CanVerify : Crypto → Text → Expected User → Type 0
CanVerify crypto password (unexpected log) = Unit
CanVerify crypto password (value user) = verify_password crypto password user ≢ none

module _ {S D : Type 0} (store : IStore S) (getrandom : ℕ → ℕ → ℕ) (users : IUserDb D)
    (crypto : Crypto) (parse_json : Text → Option (Text × Text))
    (login_request : Text → Option (Bool × Option Text × Option Text)) (encode : Text → Text → Text)
    (decode : Text → Option (Option Text × Option Text)) (fuel : ℕ) (Ready : S → Type 0)
    (view : S → Text → Option Text) (laws : IsStore store Ready view) where
  -- What a login leaves: the status 401 and the sessions that there were, or, for a user, the status
  -- 204 and one session more, that of the user, under an id that was free and is sent in a cookie.
  pub LoginLeaves : Option User → World S D → World S D → Type 0
  LoginLeaves none w w' =
      (w'.request.res ≡ record w.request.res { status = 401 })
      × ((j : Text) → view w'.request.store j ≡ view w.request.store j)
  LoginLeaves (some user) w w' =
      (sid : Text) × (view w.request.store (key_of sid) ≡ none)
      × ((j : Text)
          → view w'.request.store j ≡ (
              if text_eq (key_of sid) j
              then some (encode user.id user.username)
              else view w.request.store j))
      × (w'.request.res ≡ record w.request.res {
        status = 204;
        cookies = push_back w.request.res.cookies (session_cookie sid (pos 3600));
      })

  answer_login-LoginLeaves :
      (user : User) (same : Expected Bool) (k : ℕ) (w : World S D)
      → Ready w.request.store
      → k < fuel
      → view w.request.store (key_of (new_id (getrandom (w.request.draws + k)))) ≡ none
      → (w' : World S D) × (answer_login store getrandom users crypto parse_json login_request
            encode decode fuel user same w
          ≡ ran tt w')
        × LoginLeaves (verified user (some same)) w w'
        × (w'.users ≡ w.users)
  unfolding answer_login LoginLeaves set_status
  answer_login-LoginLeaves user (unexpected log) k w r l e = (_, refl, (refl, λ j. refl), refl)
  answer_login-LoginLeaves user (value false) k w r l e = (_, refl, (refl, λ j. refl), refl)
  answer_login-LoginLeaves user (value true) k w r l e =
      let o =
        set_session_user-HasOpened store getrandom Ready view laws encode decode fuel k user
          w.request r l e in
      let send : Response → Response = λ res. record res { status = 204 } in
      (
        record { request = record o.after { res = send o.after.res }; users = w.users },
        rw o.same,
        (o.sid, o.unused, o.opened, ap send o.sent),
        refl,
      )

  answer_verified-LoginLeaves :
      (user : User) (same : Option (Expected Bool)) (k : ℕ) (w : World S D)
      → same ≢ none
      → Ready w.request.store
      → k < fuel
      → view w.request.store (key_of (new_id (getrandom (w.request.draws + k)))) ≡ none
      → (w' : World S D) × (answer_verified store getrandom users crypto parse_json login_request
            encode decode fuel user same w
          ≡ ran tt w')
        × LoginLeaves (verified user same) w w'
        × (w'.users ≡ w.users)
  unfolding answer_verified
  answer_verified-LoginLeaves user none k w n r l e = absurd (n refl)
  answer_verified-LoginLeaves user (some same) k w n r l e =
      answer_login-LoginLeaves user same k w r l e

  pub check_user-LoginLeaves :
      (password : Text) (found : Expected User) (k : ℕ) (w : World S D)
      → CanVerify crypto password found
      → Ready w.request.store
      → k < fuel
      → view w.request.store (key_of (new_id (getrandom (w.request.draws + k)))) ≡ none
      → (w' : World S D) × (check_user store getrandom users crypto parse_json login_request encode
            decode fuel password found w
          ≡ ran tt w')
        × LoginLeaves (accepted crypto password found) w w'
        × (w'.users ≡ w.users)
  unfolding check_user LoginLeaves set_status
  check_user-LoginLeaves password (unexpected log) k w n r l e = (_, refl, (refl, λ j. refl), refl)
  check_user-LoginLeaves password (value user) k w n r l e =
      answer_verified-LoginLeaves user (verify_password crypto password user) k w n r l e

  -- What a login leaves, by a state whose sessions and response are those of another.
  LoginLeaves-cast :
      (o : Option User) (w v w' : World S D)
      → ((j : Text) → view v.request.store j ≡ view w.request.store j)
      → v.request.res ≡ w.request.res
      → LoginLeaves o v w'
      → LoginLeaves o w w'
  unfolding LoginLeaves
  LoginLeaves-cast none w v w' f e (a, b) =
      let refuse : Response → Response = λ res. record res { status = 401 } in
      (a ∙ ap refuse e, λ j. b j ∙ f j)
  LoginLeaves-cast (some user) w v w' f e (sid, a, b, c) =
      let accept : Response → Response = λ res. record res {
        status = 204;
        cookies = push_back res.cookies (session_cookie sid (pos 3600));
      } in
      (
        sid,
        sym (f (key_of sid)) ∙ a,
        λ j.
            b j
            ∙ ap (λ o. if text_eq (key_of sid) j then some (encode user.id user.username) else o)
                (f j),
        c ∙ ap accept e,
      )

  pub parse_body-get_session_id :
      (x : WrapperRequest S)
      → parse_body parse_json login_request (get_session_id store getrandom x).1.req
        ≡ parse_body parse_json login_request x.req
  unfolding get_session_id parse_body
  parse_body-get_session_id x = elim (Bool-cases (is_empty x.req.session_id)) [
    | inl e ↦ rw e
    | inr e ↦ rw e
  ]

  -- A login without an open session, whose body was read as a name and a password that are not empty,
  -- always returns, if the store is ready and keeps its laws, the session id of the request holds no
  -- zero byte, the database answers, the
  -- cryptography returns on the user that was found, and one of the first `fuel` session ids that are drawn next is
  -- free. It answers 204 and opens a session for the user that was found, if the user's password is
  -- verified. Else it answers 401, and no session is opened or changed.
  pub login-LoginLeaves :
      (w : World S D) (body : AuthBody) (found : Expected User) (d : D) (k : ℕ)
      → Ready w.request.store
      → Lacks 0 w.request.req.session_id
      → view w.request.store (key_of (get_session_id store getrandom w.request).0) ≡ none
      → parse_body parse_json login_request w.request.req ≡ some (value body)
      → (is_empty body.username || is_empty body.password) ≡ false
      → users.get_user_by_username body.username w.users ≡ ran found d
      → CanVerify crypto body.password found
      → k < fuel
      → view w.request.store
          (key_of (new_id (getrandom ((get_session_id store getrandom w.request).1.draws + k))))
        ≡ none
      → (w' : World S D) × (login store getrandom users crypto parse_json login_request encode
            decode fuel w
          ≡ ran tt w')
        × LoginLeaves (accepted crypto body.password found) w w'
        × (w'.users ≡ d)
  unfolding login check_body
  login-LoginLeaves w body found d k r h out parsed full answer n l e =
      let c = is_auth-IsChecked store getrandom Ready view laws w.request r h in
      let v : World S D = record { request = c.after; users = d } in
      let parsed' =
        ap (parse_body parse_json login_request) c.req_same
        ∙ parse_body-get_session_id w.request
        ∙ parsed in
      let (w', same, leaves, kept) =
        check_user-LoginLeaves body.password found k v n c.ready l
          (c.kept (key_of (new_id (getrandom (c.after.draws + k)))) ∙ rw c.draws_same e) in
      (
        w',
        rw c.same (rw out (rw parsed' (rw full (rw answer same)))),
        LoginLeaves-cast (accepted crypto body.password found) w v w' c.kept c.res_kept leaves,
        kept,
      )

  -- On a store that is ready and keeps its laws, a login whose session is open, under an id without a
  -- zero byte, is answered 403, and neither a session nor the database changes.
  pub login_forbidden :
      (w : World S D) (stored : Text)
      → Ready w.request.store
      → Lacks 0 w.request.req.session_id
      → view w.request.store (key_of (get_session_id store getrandom w.request).0) ≡ some stored
      → (w' : World S D) × (login store getrandom users crypto parse_json login_request encode
            decode fuel w
          ≡ ran tt w')
        × (w'.request.res ≡ record w.request.res { status = 403 })
        × ((j : Text) → view w'.request.store j ≡ view w.request.store j)
        × (w'.users ≡ w.users)
  unfolding login set_status
  login_forbidden w stored r h is_open =
      let c = is_auth-IsChecked store getrandom Ready view laws w.request r h in
      let refuse : Response → Response = λ res. record res { status = 403 } in
      (
        record { request = record c.after { res = refuse c.after.res }; users = w.users },
        rw c.same (rw is_open),
        ap refuse c.res_kept,
        c.kept,
        refl,
      )
