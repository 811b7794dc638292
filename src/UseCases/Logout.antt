-- ===== src/UseCases/Logout.antt =====
-- logout.hpp: the end of a session.
use clean_architecture_cpp.Base.{
  sym, ℕ, ◌≡◌, ◌∙◌, ap, true, false, if◌then◌else◌, Option, none, some, [], Text, is_empty,
  push_back, Lacks, text_eq, subst,
}
use clean_architecture_cpp.Base.Integer.{pos}
use clean_architecture_cpp.Http.Message.{Response}
use clean_architecture_cpp.Store.{ran, IStore, IsStore, is_some}
use clean_architecture_cpp.Adapters.Wrapper.{
  WrapperRequest, session_cookie, get_session_id, set_status,
}
use clean_architecture_cpp.Adapters.Wrapper.Sessions.{key_of}
use clean_architecture_cpp.Adapters.Wrapper.Checking.{is_auth-IsChecked}
use clean_architecture_cpp.Adapters.Wrapper.Closing.{clear_session_user_ends}
use clean_architecture_cpp.UseCases.{logout}

module _ {S : Type 0} (store : IStore S) (getrandom : ℕ → ℕ → ℕ) (encode : Text → Text → Text)
    (decode : Text → Option (Option Text × Option Text)) (Ready : S → Type 0)
    (view : S → Text → Option Text) (laws : IsStore store Ready view) where
  pub get_session_id_opened :
      (x : WrapperRequest S)
      → is_empty x.req.session_id ≡ false
      → get_session_id store getrandom x ≡ (x.req.session_id, x)
  unfolding get_session_id
  get_session_id_opened x h = rw h

  -- On a store that is ready and keeps its laws, a logout whose session is open, under an id that is
  -- not empty and holds no zero byte, is answered 204 and a cookie that ends the session; the
  -- session's key is removed, and no other.
  pub logout_ends :
      (x : WrapperRequest S) (stored : Text)
      → Ready x.store
      → is_empty x.req.session_id ≡ false
      → Lacks 0 x.req.session_id
      → view x.store (key_of x.req.session_id) ≡ some stored
      → (x' : WrapperRequest S) × (logout store getrandom encode decode x ≡ ran tt x')
        × ((j : Text)
            → view x'.store j
              ≡ (if text_eq (key_of x.req.session_id) j then none else view x.store j))
        × (x'.res ≡ record x.res {
          status = 204;
          cookies = push_back x.res.cookies (session_cookie [] (pos 0));
        })
  unfolding logout set_status
  logout_ends x stored r s h is_open =
      let c = is_auth-IsChecked store getrandom Ready view laws x r h in
      let own = get_session_id_opened x s in
      let y = c.after in
      let req_same : y.req ≡ x.req = c.req_same ∙ ap (λ p. p.1.req) own in
      let id_same : y.req.session_id ≡ x.req.session_id = ap (λ q. q.session_id) req_same in
      let open' : view y.store (key_of y.req.session_id) ≡ some stored =
        c.kept (key_of y.req.session_id) ∙ ap (λ i. view x.store (key_of i)) id_same ∙ is_open in
      let (y', y'', same, ends, sent, out) =
        clear_session_user_ends store getrandom Ready view laws y c.ready (ap is_empty id_same ∙ s)
          (subst (λ i. Lacks 0 i) (sym id_same) h) in
      let auth : is_some (view x.store (key_of (get_session_id store getrandom x).0)) ≡ true =
        ap (λ p. is_some (view x.store (key_of p.0))) own ∙ ap is_some is_open in
      let sent' : y'.res
          ≡ record y.res { cookies = push_back y.res.cookies (session_cookie [] (pos 0)) } =
        sent ∙ (rw open') in
      let finish : Response → Response = λ res. record res {
        status = 204;
        cookies = push_back res.cookies (session_cookie [] (pos 0));
      } in
      let no_content : Response → Response = λ res. record res { status = 204 } in
      (
        record y' { res = no_content y'.res },
        rw c.same (rw auth (rw same (rw open'))),
        λ j.
            ends j
            ∙ ap (λ i. if text_eq (key_of i) j then none else view y.store j) id_same
            ∙ ap (λ o. if text_eq (key_of x.req.session_id) j then none else o) (c.kept j),
        ap no_content sent' ∙ ap finish c.res_kept,
      )
