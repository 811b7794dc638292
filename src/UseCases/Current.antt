-- ===== src/UseCases/Current.antt =====
-- user.hpp: what a request for the current user is answered.
use clean_architecture_cpp.Base.{
  ℕ, ◌≡◌, refl, sym, ◌∙◌, ap, subst, true, false, Option, none, some, Text, is_empty, length, Lacks,
}
use clean_architecture_cpp.Base.Decimal.{to_string}
use clean_architecture_cpp.Entities.User.{User}
use clean_architecture_cpp.Http.Message.{Response, application_json}
use clean_architecture_cpp.Store.{ran, IStore, IsStore, is_some}
use clean_architecture_cpp.Store.Redis.Laws.{c_string_of_Lacks}
use clean_architecture_cpp.Adapters.Wrapper.{
  WrapperRequest, session_user, get_session_id, get_session_user, set_status, set_body,
  set_content_type,
}
use clean_architecture_cpp.Adapters.Wrapper.Sessions.{key_of, key_of-Lacks, get_session_key_opened}
use clean_architecture_cpp.Adapters.Wrapper.Checking.{is_auth-IsChecked}
use clean_architecture_cpp.UseCases.{current_user}
use clean_architecture_cpp.UseCases.Logout.{get_session_id_opened}

module _ {S : Type 0} (store : IStore S) (getrandom : ℕ → ℕ → ℕ) (encode : Text → Text → Text)
    (decode : Text → Option (Option Text × Option Text)) (dump : Text → Text → Option Text)
    (Ready : S → Type 0) (view : S → Text → Option Text) (laws : IsStore store Ready view) where
  -- The bytes of a session, if it is open.
  abbrev pub bytes_of : Option User → Option Text
  bytes_of none = none
  bytes_of (some user) = some (encode user.id user.username)

  abbrev pub IsPlain : Option User → Type 0
  IsPlain none = Unit
  IsPlain (some user) = Lacks 0 user.id × Lacks 0 user.username

  -- The response to a session that is open or not, by the text of its user.
  abbrev pub shown : (Text → Text → Text) → Option User → Response → Response
  shown text none res = record res { status = 401 }
  shown text (some user) res = record res {
    status = 200;
    content = text user.id user.username;
    content_length = to_string (length (text user.id user.username));
    content_type = application_json;
  }

  get_session_user_read :
      (x : WrapperRequest S) (user : User)
      → Ready x.store
      → is_empty x.req.session_id ≡ false
      → Lacks 0 x.req.session_id
      → view x.store (key_of x.req.session_id) ≡ some (encode user.id user.username)
      → ((id name : Text) → decode (encode id name) ≡ some (some id, some name))
      → IsPlain (some user)
      → (x' : WrapperRequest S) × (get_session_user store getrandom encode decode x
          ≡ ran (some (session_user user.id user.username)) x')
        × ((j : Text) → view x'.store j ≡ view x.store j)
        × (x'.res ≡ x.res)
  unfolding get_session_user
  get_session_user_read x user r s h here reads (a, b) =
      let sid = x.req.session_id in
      let key = get_session_key_opened store getrandom Ready view laws x s in
      let g = laws.get_byte_array_lem (key_of sid) x.store (key_of-Lacks sid h) r in
      (
        record x { store = g.after },
        rw (key, get_session_user)
            (rw g.same (
              rw (
                here,
                reads user.id user.username,
                c_string_of_Lacks user.id a,
                c_string_of_Lacks user.username b,
              ))),
        g.view_after,
        refl,
      )

  -- On a store that is ready and keeps its laws, a request whose session id is not empty and holds no
  -- zero byte is answered with the status 401 if that session is not open, and else with the status
  -- 200, the text of the user that the session was opened for as the content, its length and the
  -- content type application/json, if flatbuffers reads back what it
  -- writes, json makes a text of every id and name, and the user's id and name hold no zero byte. The
  -- sessions stay as they are.
  pub current_user-shown :
      (text : Text → Text → Text) (x : WrapperRequest S) (session : Option User)
      → Ready x.store
      → is_empty x.req.session_id ≡ false
      → Lacks 0 x.req.session_id
      → view x.store (key_of x.req.session_id) ≡ bytes_of session
      → ((id name : Text) → decode (encode id name) ≡ some (some id, some name))
      → ((id name : Text) → dump id name ≡ some (text id name))
      → IsPlain session
      → (x' : WrapperRequest S) × (current_user store getrandom encode decode dump x ≡ ran tt x')
        × (x'.res ≡ shown text session x.res)
        × ((j : Text) → view x'.store j ≡ view x.store j)
  unfolding current_user set_status set_body set_content_type
  current_user-shown text x none r s h here reads dumps plain =
      let c = is_auth-IsChecked store getrandom Ready view laws x r h in
      let own = get_session_id_opened store getrandom encode decode Ready view laws x s in
      let closed : is_some (view x.store (key_of (get_session_id store getrandom x).0)) ≡ false =
        ap (λ p. is_some (view x.store (key_of p.0))) own ∙ ap is_some here in
      (
        record c.after { res = shown text none c.after.res },
        rw c.same (rw closed refl),
        ap (shown text none) c.res_kept,
        c.kept,
      )
  current_user-shown text x (some user) r s h here reads dumps plain =
      let c = is_auth-IsChecked store getrandom Ready view laws x r h in
      let own = get_session_id_opened store getrandom encode decode Ready view laws x s in
      let opened : is_some (view x.store (key_of (get_session_id store getrandom x).0)) ≡ true =
        ap (λ p. is_some (view x.store (key_of p.0))) own ∙ ap is_some here in
      let y = c.after in
      let id_same : y.req.session_id ≡ x.req.session_id =
        ap (λ q. q.session_id) (c.req_same ∙ ap (λ p. p.1.req) own) in
      let here' : view y.store (key_of y.req.session_id) ≡ some (encode user.id user.username) =
        c.kept (key_of y.req.session_id) ∙ ap (λ i. view x.store (key_of i)) id_same ∙ here in
      let (y', got, kept, res) =
        get_session_user_read y user c.ready (ap is_empty id_same ∙ s)
          (subst (λ i. Lacks 0 i) (sym id_same) h) here' reads plain in
      (
        record y' { res = shown text (some user) y'.res },
        rw c.same (rw opened (rw got (rw (dumps user.id user.username) refl))),
        ap (shown text (some user)) (res ∙ c.res_kept),
        λ j. kept j ∙ c.kept j,
      )
