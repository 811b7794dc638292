-- ===== src/Api/Warrants/Returning.antt =====
-- wrapper.hpp, logout.hpp, register.hpp and user.hpp: they return, on a store that is sound and ready
-- and a database that answers.
use clean_architecture_cpp.Base.{
  refl, ℕ, ◌≡◌, ◌≢◌, inl, inr, ◌||◌, Bool-cases, Option, Option-cases, none, some, Text, is_empty,
}
use clean_architecture_cpp.Entities.Log.{Log, Expected, value, unexpected}
use clean_architecture_cpp.Entities.User.{
  hashed_user, IsReturning, User, Crypto, make_new_user, set_password, hash_password,
}
use clean_architecture_cpp.Store.{Run, ran, waits, crashes, IStore, IsStore}
use clean_architecture_cpp.Store.Redis.{c_string}
use clean_architecture_cpp.Store.Ensures.{Ensures-any, Returns, Returns-bind, Returns-elim}
use clean_architecture_cpp.Adapters.Wrapper.{
  WrapperRequest, is_auth, get_session_key, get_session_user, clear_session_user, read_session,
  set_status,
}
use clean_architecture_cpp.Adapters.Wrapper.Checking.{is_auth-IsChecked}
use clean_architecture_cpp.UseCases.{
  add_when_hashed, IUserDb, AuthBody, World, parse_json_body, of_request, of_users, on_request,
  on_users, respond, answer_added, add_hashed, add_with_password, add_made, register_body, register,
  logout, current_user, answer_with, answer_user,
}
use clean_architecture_cpp.Api.Warrants.{IsCredited, IsWarranted, IsSound}
use clean_architecture_cpp.Api.Warrants.Databases.{IsAnswering, of_request-UpAfter}
use clean_architecture_cpp.Api.Warrants.Sessions.{
  Keeps, IsTold, get_session_key-Sound, is_auth-Sound, clear_session_user-Sound,
  get_session_user-IsTold,
}

module _ {S D : Type 0} where
  pub on_request-Returns :
      {A : Type 0} (d : D) (r : Run A (WrapperRequest S)) → Returns r → Returns (of_request d r)
  on_request-Returns d (ran a x) h = tt
  on_request-Returns d waits h = absurd h
  on_request-Returns d crashes h = absurd h

  pub on_users-Returns :
      {A : Type 0} (x : WrapperRequest S) (r : Run A D) → Returns r → Returns (of_users x r)
  on_users-Returns x (ran a d) h = tt
  on_users-Returns x waits h = absurd h
  on_users-Returns x crashes h = absurd h

module _ {S D : Type 0} (store : IStore S) (getrandom : ℕ → ℕ → ℕ) (users : IUserDb D)
    (crypto : Crypto) (encode : Text → Text → Text)
    (decode : Text → Option (Option Text × Option Text)) (Ready : S → Type 0)
    (view : S → Text → Option Text) (laws : IsStore store Ready view) where
  abbrev pub Sound : WrapperRequest S → Type 0
  Sound x = IsSound users crypto encode Ready view x

  pub is_auth-Returns : (x : WrapperRequest S) → Sound x → Returns (is_auth store getrandom x)
  is_auth-Returns x h =
      let c = is_auth-IsChecked store getrandom Ready view laws x h.ready h.plain in rw c.same tt

  clear_session_user-Returns :
      (x : WrapperRequest S) → Sound x → Returns (clear_session_user store getrandom x)
  unfolding clear_session_user
  clear_session_user-Returns x h =
      let (key, x') = get_session_key store getrandom x in
      let (lacks, (sound, res)) =
        get_session_key-Sound store getrandom users crypto encode decode Ready view laws x h in
      let g = laws.del_lem key x'.store lacks sound.ready in rw g.same tt

  module _ (reads : (id name : Text) → decode (encode id name) ≡ some (some id, some name)) where
    read_session-Returns :
        (bytes : Option Text) (x : WrapperRequest S)
        → IsWarranted users crypto encode bytes
        → Returns (read_session store getrandom encode decode (value bytes) x)
    read_session-Returns none x w = tt
    read_session-Returns (some bytes) x (user, credit, e) = rw (e, reads user.id user.username) tt

    get_session_user-Returns :
        (x : WrapperRequest S)
        → Sound x
        → Returns (get_session_user store getrandom encode decode x)
    unfolding get_session_user
    get_session_user-Returns x h =
        let (key, x') = get_session_key store getrandom x in
        let (lacks, (sound, res)) =
          get_session_key-Sound store getrandom users crypto encode decode Ready view laws x h in
        let g = laws.get_byte_array_lem key x'.store lacks sound.ready in
        rw g.same (read_session-Returns (view x'.store key) _ (sound.warranted key))

    pub logout-Returns :
        (x : WrapperRequest S) → Sound x → Returns (logout store getrandom encode decode x)
    unfolding logout
    logout-Returns x h =
        Returns-bind
          (λ auth y. Keeps store getrandom users crypto encode decode Ready view laws x y)
          (is_auth store getrandom x) _ (is_auth-Returns x h)
          (is_auth-Sound store getrandom users crypto encode decode Ready view laws x h)
          (λ auth y (kept, same).
            Returns-elim auth _ (answer_with (set_status 401) y)
              (Returns-bind (λ cleared z. Sound z) (clear_session_user store getrandom y) _
                (clear_session_user-Returns y kept)
                (clear_session_user-Sound store getrandom users crypto encode decode Ready view laws
                  y kept)
                (λ cleared z sound. Returns-elim cleared (answer_with (set_status 204) z) _ tt (
                  Returns-bind (λ o v. Unit) (get_session_user store getrandom encode decode z) _
                    (get_session_user-Returns z sound)
                    (Ensures-any (get_session_user store getrandom encode decode z))
                    (λ o v u. tt))))
              tt)

    module _ (dump : Text → Text → Option Text)
        (prints : (user : User)
          → IsCredited users crypto user
          → dump (c_string user.id) (c_string user.username) ≢ none) where
      answer_user-Returns :
          (o : Option User) (y : WrapperRequest S)
          → IsTold store getrandom users crypto encode decode Ready view laws o
          → Returns (answer_user store getrandom encode decode dump o y)
      answer_user-Returns none y told = tt
      answer_user-Returns (some told) y (user, credit, e) =
          rw e (elim (Option-cases (dump (c_string user.id) (c_string user.username))) [
            | inl f ↦ absurd (prints user credit f)
            | inr (body, f) ↦ rw f tt
          ])

      pub current_user-Returns :
          (x : WrapperRequest S)
          → Sound x
          → Returns (current_user store getrandom encode decode dump x)
      unfolding current_user
      current_user-Returns x h =
          Returns-bind
            (λ auth y. Keeps store getrandom users crypto encode decode Ready view laws x y)
            (is_auth store getrandom x) _ (is_auth-Returns x h)
            (is_auth-Sound store getrandom users crypto encode decode Ready view laws x h)
            (λ auth y (kept, same).
              Returns-elim auth _ (answer_with (set_status 401) y)
                (Returns-bind
                  (λ o z.
                    Keeps store getrandom users crypto encode decode Ready view laws y z
                    × IsTold store getrandom users crypto encode decode Ready view laws o)
                  (get_session_user store getrandom encode decode y) _
                  (get_session_user-Returns y kept)
                  (get_session_user-IsTold store getrandom users crypto encode decode Ready view
                    laws reads y kept)
                  (λ o z ((kept', same'), told). answer_user-Returns o z told))
                tt)

  module _ (parse_json : Text → Option (Text × Text)) (Up : D → Type 0)
      (answering : IsAnswering users Up) (returning : IsReturning crypto) where
    answer_added-Returns :
        (added : Expected Text) (w : World S D)
        → Returns (answer_added store getrandom users crypto parse_json added w)
    unfolding answer_added
    answer_added-Returns (value id) w = tt
    answer_added-Returns (unexpected log) w = tt

    add_hashed-Returns :
        (hashed : Option Log × User) (w : World S D)
        → Up w.users
        → Returns (add_hashed store getrandom users crypto parse_json hashed w)
    unfolding add_hashed
    add_hashed-Returns (some log, user) w h = tt
    add_hashed-Returns (none, user) w h =
        Returns-bind (λ a v. Unit) (on_users (users.add_user user) w) _
          (on_users-Returns w.request (users.add_user user w.users) (answering.adds user w.users h))
          (Ensures-any (on_users (users.add_user user) w))
          (λ added v u. answer_added-Returns added v)

    add_when_hashed-Returns :
        (hashed : Option (Option Log × User)) (w : World S D)
        → hashed ≢ none
        → Up w.users
        → Returns (add_when_hashed store getrandom users crypto parse_json hashed w)
    unfolding add_when_hashed
    add_when_hashed-Returns none w n h = absurd (n refl)
    add_when_hashed-Returns (some hashed) w n h = add_hashed-Returns hashed w h

    hash_password_returns : (user : User) → hash_password crypto user ≢ none
    unfolding hash_password
    hash_password_returns user e = elim (Option-cases (crypto.hash user.password)) [
      | inl f ↦ returning.hashes user.password f
      | inr (hashed, f) ↦
          let none_some : some (hashed_user crypto user hashed) ≡ none = rw f at e in absurd (cc)
    ]

    add_with_password-Returns :
        (checked : Option Log × User) (w : World S D)
        → Up w.users
        → Returns (add_with_password store getrandom users crypto parse_json checked w)
    unfolding add_with_password
    add_with_password-Returns (some log, user) w h = tt
    add_with_password-Returns (none, user) w h =
        add_when_hashed-Returns (hash_password crypto user) w (hash_password_returns user) h

    add_made-Returns :
        (password : Text) (made : Expected User) (w : World S D)
        → Up w.users
        → Returns (add_made store getrandom users crypto parse_json password made w)
    unfolding add_made
    add_made-Returns password (unexpected log) w h = tt
    add_made-Returns password (value user) w h =
        add_with_password-Returns (set_password password user) w h

    register_body-Returns :
        (body : Expected AuthBody) (w : World S D)
        → Up w.users
        → Returns (register_body store getrandom users crypto parse_json body w)
    unfolding register_body
    register_body-Returns (unexpected log) w h = tt
    register_body-Returns (value body) w h =
        elim (Bool-cases (is_empty body.username || is_empty body.password)) [
          | inl e ↦ rw e tt
          | inr e ↦ rw e (add_made-Returns body.password (make_new_user body.username).0 w h)
        ]

    pub register-Returns :
        (w : World S D)
        → Sound w.request
        → Up w.users
        → Returns (register store getrandom users crypto parse_json w)
    unfolding register
    register-Returns w h up =
        Returns-bind (λ a v. Up v.users) (on_request (is_auth store getrandom) w) _
          (on_request-Returns w.users (is_auth store getrandom w.request)
            (is_auth-Returns w.request h))
          (of_request-UpAfter Up w.users (is_auth store getrandom w.request) up)
          (λ auth v u.
            Returns-elim auth (respond (set_status 403) v) _ tt
              (register_body-Returns (parse_json_body parse_json v.request.req) v u))
