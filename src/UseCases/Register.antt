-- ===== src/UseCases/Register.antt =====
-- register.hpp: which users reach the database.
use clean_architecture_cpp.Base.{
  is_empty_of_le, ℕ, ◌%◌, ◌^◌, ◌≤◌, ◌<◌, ◌≡◌, ◌⊎◌, inl, inr, refl, ◌∙◌, ap, false, ◌||◌, ltb,
  le→ltb_false, if◌then◌else◌, Bool-cases, Option, none, some, [], ◌∷◌, Text, codes, length,
  is_empty, Lacks, text_eq, arith,
}
use clean_architecture_cpp.Base.Decimal.{to_string}
use clean_architecture_cpp.Entities.Log.{Expected, value, unexpected}
use clean_architecture_cpp.Entities.User.{
  User, Crypto, make_new_user, set_password, hash_password, validate_username,
}
use clean_architecture_cpp.Utils.Strings.{trim}
use clean_architecture_cpp.Http.Message.{Response}
use clean_architecture_cpp.Store.{Run, ran, ◌>>=◌, IStore, IsStore}
use clean_architecture_cpp.Adapters.Wrapper.{
  WrapperRequest, get_session_id, set_status, set_body, set_body_rows,
}
use clean_architecture_cpp.Adapters.Wrapper.Sessions.{key_of}
use clean_architecture_cpp.Adapters.Wrapper.Checking.{is_auth-IsChecked}
use clean_architecture_cpp.UseCases.{
  add_when_hashed, IUserDb, AuthBody, World, parse_json_body, on_users, respond, answer_added,
  add_hashed, add_with_password, add_made, register_body, register,
}

-- The user that is stored for a name, a password and its hash.
abbrev pub new_user : Text → Text → Text → User
new_user username password hash = record {
  id = [];
  username = trim username;
  password = password;
  hashed = hash;
}

-- A text of 8 to 60 bytes, and a length out of those bounds.
abbrev pub IsFit : Text → Type 0
IsFit s = (8 ≤ length s) × (length s ≤ 60)

abbrev pub IsUnfit : ℕ → Type 0
IsUnfit n = (n < 8) ⊎ (60 < n)

-- The response to the answer of the database.
abbrev pub added_response : Expected Text → Response → Response
added_response (value id) res = record res {
  status = 201;
  content = id;
  content_length = to_string (length id);
}
added_response (unexpected error) res =
    let text =
      if text_eq error.db_contraint (codes "users_username_key")
      then codes "Username already taken"
      else error.msg in
    record res { status = 400; content = text; content_length = to_string (length text) }

abbrev refuse_text : Text → Response → Response
refuse_text text res = set_status 400 (set_body text res)

abbrev refuse_row : Text → Response → Response
refuse_row row res = set_status 400 (set_body_rows (row ∷ []) res)

module _ {S D : Type 0} (store : IStore S) (getrandom : ℕ → ℕ → ℕ) (users : IUserDb D)
    (crypto : Crypto) (parse_json : Text → Option (Text × Text)) where
  answer_added_run :
      (result : Expected Text) (w : World S D)
      → answer_added store getrandom users crypto parse_json result w
        ≡ respond (added_response result) w
  unfolding answer_added set_status set_body
  answer_added_run (value id) w = refl
  answer_added_run (unexpected error) w = refl

  register_body-fit :
      (body : AuthBody) (hash : Text) (w : World S D)
      → (is_empty body.username || is_empty body.password) ≡ false
      → IsFit (trim body.username)
      → IsFit body.password
      → crypto.hash body.password ≡ some (value hash)
      → register_body store getrandom users crypto parse_json (value body) w ≡ (
          on_users (users.add_user (new_user body.username body.password hash)) w
          >>= answer_added store getrandom users crypto parse_json)
  unfolding register_body add_made add_with_password add_when_hashed add_hashed make_new_user
      set_password hash_password validate_username
  register_body-fit body hash w full (a, b) (c, d) e =
      let small : length body.password % 2 ^ 32 ≡ length body.password = omega arith in
      rw full (
        rw
          (
            le→ltb_false (length (trim body.username)) 8 a,
            le→ltb_false 60 (length (trim body.username)) b,
          )
          (rw
            (
              small,
              le→ltb_false (length body.password) 8 c,
              le→ltb_false 60 (length body.password) d,
            )
            (rw e)))

  -- What is refused: a response of status 400, and nothing else.
  pub record IsRefused (result : Run Unit (World S D)) (w : World S D) : Type 0 where
    pub change : Response → Response
    pub same : result ≡ respond change w
    pub status_400 : (res : Response) → (change res).status ≡ 400

  register_body-unfit :
      (body : AuthBody) (w : World S D)
      → IsUnfit (length (trim body.username)) ⊎ IsUnfit (length body.password % 2 ^ 32)
      → IsRefused (register_body store getrandom users crypto parse_json (value body) w) w
  unfolding register_body add_made add_with_password make_new_user set_password validate_username
      set_status
  register_body-unfit body w h =
      elim (Bool-cases (is_empty body.username || is_empty body.password)) [
        | inl e ↦ record {
          change = refuse_text (codes "Empty username/password");
          same = rw e;
          status_400 = λ res. refl;
        }
        | inr e ↦ elim (Bool-cases (ltb (length (trim body.username)) 8)) [
          | inl a ↦ record {
            change = refuse_row (codes "username: min");
            same = rw (e, a);
            status_400 = λ res. refl;
          }
          | inr a ↦ elim (Bool-cases (ltb 60 (length (trim body.username)))) [
            | inl b ↦ record {
              change = refuse_row (codes "username: max");
              same = rw (e, a, b);
              status_400 = λ res. refl;
            }
            | inr b ↦ elim (Bool-cases (ltb (length body.password % 2 ^ 32) 8)) [
              | inl c ↦ record {
                change = refuse_text (codes "Invalid password");
                same = rw (e, a, b, c);
                status_400 = λ res. refl;
              }
              | inr c ↦ elim (Bool-cases (ltb 60 (length body.password % 2 ^ 32))) [
                | inl d ↦ record {
                  change = refuse_text (codes "Invalid password");
                  same = rw (e, a, b, c, d);
                  status_400 = λ res. refl;
                }
                | inr d ↦ absurd (ground (arith, h))
              ]
            ]
          ]
        ]
      ]

  parse_json_body-get_session_id :
      (x : WrapperRequest S)
      → parse_json_body parse_json (get_session_id store getrandom x).1.req
        ≡ parse_json_body parse_json x.req
  unfolding get_session_id parse_json_body
  parse_json_body-get_session_id x = elim (Bool-cases (is_empty x.req.session_id)) [
    | inl e ↦ rw e
    | inr e ↦ rw e
  ]

  module _ (Ready : S → Type 0) (view : S → Text → Option Text)
      (laws : IsStore store Ready view) where
    -- The registration goes on with the body, on a state whose response and database are the same.
    register-parsed :
        (w : World S D) (body : Expected AuthBody)
        → Ready w.request.store
        → Lacks 0 w.request.req.session_id
        → view w.request.store (key_of (get_session_id store getrandom w.request).0) ≡ none
        → parse_json_body parse_json w.request.req ≡ body
        → (x : WrapperRequest S) × (x.res ≡ w.request.res)
          × (register store getrandom users crypto parse_json w
              ≡ register_body store getrandom users crypto parse_json body
                  (record { request = x; users = w.users }))
    unfolding register
    register-parsed w body r h out parsed =
        let c = is_auth-IsChecked store getrandom Ready view laws w.request r h in
        let parsed' =
          ap (parse_json_body parse_json) c.req_same
          ∙ parse_json_body-get_session_id w.request
          ∙ parsed in
        (c.after, c.res_kept, rw c.same (rw out (rw parsed')))

    -- On a store that is ready and keeps its laws, a registration without an open session, by a request
    -- whose session id holds no zero byte, of a name that is not empty and has 8 to 60 bytes when it is trimmed and
    -- of a password of 8 to 60 bytes that can be hashed, hands exactly one user to the database: the
    -- trimmed name with the password and its hash. What the database answers is the response: 201 with
    -- the new id, or 400 with the reason.
    pub register-added_response :
        (w : World S D) (body : AuthBody) (hash : Text) (result : Expected Text) (d : D)
        → Ready w.request.store
        → Lacks 0 w.request.req.session_id
        → view w.request.store (key_of (get_session_id store getrandom w.request).0) ≡ none
        → parse_json_body parse_json w.request.req ≡ value body
        → is_empty body.username ≡ false
        → IsFit (trim body.username)
        → IsFit body.password
        → crypto.hash body.password ≡ some (value hash)
        → users.add_user (new_user body.username body.password hash) w.users ≡ ran result d
        → (w' : World S D) × (register store getrandom users crypto parse_json w ≡ ran tt w')
          × (w'.request.res ≡ added_response result w.request.res)
          × (w'.users ≡ d)
    register-added_response w body hash result d r h out parsed named a (b, c) e added =
        let full : (is_empty body.username || is_empty body.password) ≡ false =
          rw (named, is_empty_of_le body.password (omega arith)) in
        let (x, res_kept, same) = register-parsed w (value body) r h out parsed in
        let v : World S D = record { request = x; users = w.users } in
        (
          record { request = record x { res = added_response result x.res }; users = d },
          same
              ∙ register_body-fit body hash v full a (b, c) e
              ∙ (rw added (answer_added_run result (record { request = x; users = d }))),
          ap (added_response result) res_kept,
          refl,
        )

    -- On a store that is ready and keeps its laws, a registration without an open session, by a request
    -- whose session id holds no zero byte, of a trimmed name that has less than 8 or more than 60 bytes,
    -- or of a password whose length, cut to 32 bits, is less than 8 or more than 60, is answered 400, and the database does not change.
    pub register_refuses :
        (w : World S D) (body : AuthBody)
        → Ready w.request.store
        → Lacks 0 w.request.req.session_id
        → view w.request.store (key_of (get_session_id store getrandom w.request).0) ≡ none
        → parse_json_body parse_json w.request.req ≡ value body
        → IsUnfit (length (trim body.username)) ⊎ IsUnfit (length body.password % 2 ^ 32)
        → (w' : World S D) × (register store getrandom users crypto parse_json w ≡ ran tt w')
          × (w'.request.res.status ≡ 400)
          × (w'.users ≡ w.users)
    register_refuses w body r h out parsed unfit =
        let (x, res_kept, same) = register-parsed w (value body) r h out parsed in
        let v : World S D = record { request = x; users = w.users } in
        let o = register_body-unfit body v unfit in
        (
          record { request = record x { res = o.change x.res }; users = w.users },
          same ∙ o.same,
          o.status_400 x.res,
          refl,
        )
