-- ===== src/Api/Warrants/Answers.antt =====
-- register.hpp, logout.hpp and user.hpp: they keep the sessions warranted, and user.hpp shows no user
-- but one who was credited.
use clean_architecture_cpp.Base.{
  ℕ, ◌≡◌, refl, sym, subst, ◌∙◌, ap, ◌⊎◌, inl, inr, ◌||◌, Bool-cases, Option-cases, Option, none,
  some, Text, is_empty,
}
use clean_architecture_cpp.Entities.Log.{Log, Expected, value, unexpected}
use clean_architecture_cpp.Entities.User.{User, Crypto, make_new_user, set_password, hash_password}
use clean_architecture_cpp.Http.Message.{Response, application_json}
use clean_architecture_cpp.Store.{ran, IStore, IsStore}
use clean_architecture_cpp.Store.Redis.{c_string}
use clean_architecture_cpp.Store.Ensures.{Ensures, Ensures-bind, Ensures-elim}
use clean_architecture_cpp.Adapters.Wrapper.{
  WrapperRequest, is_auth, get_session_user, clear_session_user, set_status, set_body,
  set_content_type,
}
use clean_architecture_cpp.UseCases.{
  add_when_hashed, IUserDb, AuthBody, World, parse_json_body, on_request, on_users, respond,
  answer_added, add_hashed, add_with_password, add_made, register_body, register, logout,
  current_user, answer_with, answer_user,
}
use clean_architecture_cpp.Api.Warrants.{IsCredited, IsSound}
use clean_architecture_cpp.Api.Warrants.Sessions.{
  Keeps, IsTold, is_auth-Sound, clear_session_user-Sound, get_session_user-IsTold,
}
use clean_architecture_cpp.Api.Warrants.Logins.{on_users-Ensures, is_auth-SoundWorld}

module _ {S D : Type 0} (store : IStore S) (getrandom : ℕ → ℕ → ℕ) (users : IUserDb D)
    (crypto : Crypto) (encode : Text → Text → Text)
    (decode : Text → Option (Option Text × Option Text)) (Ready : S → Type 0)
    (view : S → Text → Option Text) (laws : IsStore store Ready view) where
  abbrev Sound : WrapperRequest S → Type 0
  Sound x = IsSound users crypto encode Ready view x

  answered-Sound :
      (x : WrapperRequest S) (res : Response) → Sound x → Sound (record x { res = res })
  answered-Sound x res h = record { ready = h.ready; plain = h.plain; warranted = h.warranted }

  module _ (parse_json : Text → Option (Text × Text)) where
    answer_added-Sound :
        (added : Expected Text) (w : World S D)
        → Sound w.request
        → Ensures
            (λ t w'. Sound w'.request)
            (answer_added store getrandom users crypto parse_json added w)
    unfolding answer_added
    answer_added-Sound (value id) w h = answered-Sound w.request _ h
    answer_added-Sound (unexpected log) w h = answered-Sound w.request _ h

    add_hashed-Sound :
        (hashed : Option Log × User) (w : World S D)
        → Sound w.request
        → Ensures
            (λ t w'. Sound w'.request)
            (add_hashed store getrandom users crypto parse_json hashed w)
    unfolding add_hashed
    add_hashed-Sound (some log, user) w h = answered-Sound w.request _ h
    add_hashed-Sound (none, user) w h =
        Ensures-bind
          (λ a w'. (w'.request ≡ w.request) × (users.add_user user w.users ≡ ran a w'.users))
          (λ t w'. Sound w'.request) (on_users (users.add_user user) w) _
          (on_users-Ensures w.request (users.add_user user w.users))
          (λ added w' (same, answer). answer_added-Sound added w' (subst Sound (sym same) h))

    add_when_hashed-Sound :
        (hashed : Option (Option Log × User)) (w : World S D)
        → Sound w.request
        → Ensures
            (λ t w'. Sound w'.request)
            (add_when_hashed store getrandom users crypto parse_json hashed w)
    unfolding add_when_hashed
    add_when_hashed-Sound none w h = tt
    add_when_hashed-Sound (some hashed) w h = add_hashed-Sound hashed w h

    add_with_password-Sound :
        (checked : Option Log × User) (w : World S D)
        → Sound w.request
        → Ensures
            (λ t w'. Sound w'.request)
            (add_with_password store getrandom users crypto parse_json checked w)
    unfolding add_with_password
    add_with_password-Sound (some log, user) w h = answered-Sound w.request _ h
    add_with_password-Sound (none, user) w h = add_when_hashed-Sound (hash_password crypto user) w h

    add_made-Sound :
        (password : Text) (made : Expected User) (w : World S D)
        → Sound w.request
        → Ensures
            (λ t w'. Sound w'.request)
            (add_made store getrandom users crypto parse_json password made w)
    unfolding add_made
    add_made-Sound password (unexpected log) w h = answered-Sound w.request _ h
    add_made-Sound password (value user) w h =
        add_with_password-Sound (set_password password user) w h

    register_body-Sound :
        (body : Expected AuthBody) (w : World S D)
        → Sound w.request
        → Ensures
            (λ t w'. Sound w'.request)
            (register_body store getrandom users crypto parse_json body w)
    unfolding register_body
    register_body-Sound (unexpected log) w h = answered-Sound w.request _ h
    register_body-Sound (value body) w h =
        elim (Bool-cases (is_empty body.username || is_empty body.password)) [
          | inl e ↦ rw e (answered-Sound w.request _ h)
          | inr e ↦ rw e (add_made-Sound body.password (make_new_user body.username).0 w h)
        ]

    pub register-Sound :
        (w : World S D)
        → Sound w.request
        → Ensures (λ t w'. Sound w'.request) (register store getrandom users crypto parse_json w)
    unfolding register
    register-Sound w h =
        Ensures-bind (λ auth w'. Sound w'.request) (λ t w'. Sound w'.request)
          (on_request (is_auth store getrandom) w) _
          (is_auth-SoundWorld store getrandom users crypto encode decode Ready view laws w h)
          (λ auth w' h'.
            Ensures-elim (λ t v. Sound v.request) auth (respond (set_status 403) w') _
              (answered-Sound w'.request _ h')
              (register_body-Sound (parse_json_body parse_json w'.request.req) w' h'))

  -- What a request for the current user is answered: a refusal, or the text of a user who was credited.
  pub data Discloses (dump : Text → Text → Option Text) (res : Response) : Response → Type 0 where
    refused :
        (status : ℕ) (res' : Response)
        → (status ≡ 401) ⊎ (status ≡ 500)
        → res' ≡ set_status status res
        → Discloses dump res res'
    shows :
        (user : User) (body : Text) (res' : Response)
        → IsCredited users crypto user
        → dump (c_string user.id) (c_string user.username) ≡ some body
        → res' ≡ set_status 200 (set_content_type application_json (set_body body res))
        → Discloses dump res res'

  pub logout-Sound :
      (x : WrapperRequest S)
      → Sound x
      → ((id name : Text) → decode (encode id name) ≡ some (some id, some name))
      → Ensures (λ t y. Sound y) (logout store getrandom encode decode x)
  unfolding logout
  logout-Sound x h reads =
      Ensures-bind (λ auth y. Keeps store getrandom users crypto encode decode Ready view laws x y)
        (λ t y. Sound y) (is_auth store getrandom x) _
        (is_auth-Sound store getrandom users crypto encode decode Ready view laws x h)
        (λ auth y (kept, same).
          Ensures-elim (λ t z. Sound z) auth _ (answer_with (set_status 401) y)
            (Ensures-bind (λ cleared z. Sound z) (λ t z. Sound z)
              (clear_session_user store getrandom y) _
              (clear_session_user-Sound store getrandom users crypto encode decode Ready view laws y
                kept)
              (λ cleared z kept'.
                Ensures-elim (λ t v. Sound v) cleared (answer_with (set_status 204) z) _
                  (answered-Sound z _ kept')
                  (Ensures-bind
                    (λ o v.
                      Keeps store getrandom users crypto encode decode Ready view laws z v
                      × IsTold store getrandom users crypto encode decode Ready view laws o)
                    (λ t v. Sound v) (get_session_user store getrandom encode decode z) _
                    (get_session_user-IsTold store getrandom users crypto encode decode Ready view
                      laws reads z kept')
                    (λ o v ((kept'', same'), told). answered-Sound v _ kept''))))
            (answered-Sound y _ kept))

  module _ (dump : Text → Text → Option Text)
      (reads : (id name : Text) → decode (encode id name) ≡ some (some id, some name)) where
    answer_user-Discloses :
        (o : Option User) (res : Response) (y : WrapperRequest S)
        → Sound y
        → y.res ≡ res
        → IsTold store getrandom users crypto encode decode Ready view laws o
        → Ensures
            (λ t z. Sound z × Discloses dump res z.res)
            (answer_user store getrandom encode decode dump o y)
    answer_user-Discloses none res y h same told =
        (answered-Sound y _ h, refused 500 _ (inr refl) (ap (set_status 500) same))
    answer_user-Discloses (some told) res y h same (user, credit, e) =
        rw e (elim (Option-cases (dump (c_string user.id) (c_string user.username))) [
          | inl f ↦ rw f tt
          | inr (body, f) ↦ rw f (
            answered-Sound y _ h,
            shows user body _ credit f (
                ap (λ r. set_status 200 (set_content_type application_json (set_body body r)))
                  same),
          )
        ])

    pub current_user-Discloses :
        (x : WrapperRequest S)
        → Sound x
        → Ensures
            (λ t y. Sound y × Discloses dump x.res y.res)
            (current_user store getrandom encode decode dump x)
    unfolding current_user
    current_user-Discloses x h =
        Ensures-bind
          (λ auth y. Keeps store getrandom users crypto encode decode Ready view laws x y)
          (λ t y. Sound y × Discloses dump x.res y.res) (is_auth store getrandom x) _
          (is_auth-Sound store getrandom users crypto encode decode Ready view laws x h)
          (λ auth y (kept, same).
            Ensures-elim (λ t z. Sound z × Discloses dump x.res z.res) auth _
              (answer_with (set_status 401) y)
              (Ensures-bind
                (λ o z.
                  Keeps store getrandom users crypto encode decode Ready view laws y z
                  × IsTold store getrandom users crypto encode decode Ready view laws o)
                (λ t z. Sound z × Discloses dump x.res z.res)
                (get_session_user store getrandom encode decode y) _
                (get_session_user-IsTold store getrandom users crypto encode decode Ready view laws
                  reads y kept)
                (λ o z ((kept', same'), told).
                  answer_user-Discloses o x.res z kept' (same' ∙ same) told))
              (answered-Sound y _ kept, refused 401 _ (inl refl) (ap (set_status 401) same)))
