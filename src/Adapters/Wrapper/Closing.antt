-- ===== src/Adapters/Wrapper/Closing.antt =====
-- wrapper.hpp, `clear_session_user`: the end of a session.
use clean_architecture_cpp.Base.{
  Bool-cases, inl, inr, ℕ, ◌≡◌, ◌∙◌, false, if◌then◌else◌, Option, none, [], Text, is_empty,
  push_back, Lacks, text_eq, text_eq_refl,
}
use clean_architecture_cpp.Base.Integer.{pos}
use clean_architecture_cpp.Store.{ran, IStore, IsStore, is_some}
use clean_architecture_cpp.Adapters.Wrapper.{
  WrapperRequest, session_cookie, add_cookie, is_auth, clear_session_user,
}
use clean_architecture_cpp.Adapters.Wrapper.Sessions.{key_of, key_of-Lacks, get_session_key_opened}

module _ {S : Type 0} (store : IStore S) (getrandom : ℕ → ℕ → ℕ) (Ready : S → Type 0)
    (view : S → Text → Option Text) (laws : IsStore store Ready view) where
  unauthenticated :
      (y : WrapperRequest S)
      → Ready y.store
      → is_empty y.req.session_id ≡ false
      → Lacks 0 y.req.session_id
      → view y.store (key_of y.req.session_id) ≡ none
      → (x'' : WrapperRequest S) × (is_auth store getrandom y ≡ ran false x'')
  unfolding is_auth
  unauthenticated y r s h gone =
      let g =
        laws.exists_lem (key_of y.req.session_id) y.store (key_of-Lacks y.req.session_id h) r in
      (
        record y { store = g.after },
        rw (get_session_key_opened store getrandom Ready view laws y s, is_auth)
            (rw g.same (rw gone)),
      )

  -- On a store that is ready and keeps its laws, when the request carries a session id without a zero byte, `clear_session_user` tells whether
  -- the store had its key, removes it and no other key, and sends a cookie that ends the session if
  -- there was one; the session is then not authenticated.
  pub clear_session_user_ends :
      (x : WrapperRequest S)
      → Ready x.store
      → is_empty x.req.session_id ≡ false
      → Lacks 0 x.req.session_id
      → (x' x'' : WrapperRequest S) × (clear_session_user store getrandom x
          ≡ ran (is_some (view x.store (key_of x.req.session_id))) x')
        × ((j : Text)
            → view x'.store j
              ≡ (if text_eq (key_of x.req.session_id) j then none else view x.store j))
        × (x'.res ≡ (
            if is_some (view x.store (key_of x.req.session_id))
            then record x.res { cookies = push_back x.res.cookies (session_cookie [] (pos 0)) }
            else x.res))
        × (is_auth store getrandom x' ≡ ran false x'')
  unfolding clear_session_user
  clear_session_user_ends x r s h =
      let key = get_session_key_opened store getrandom Ready view laws x s in
      let g = laws.del_lem (key_of x.req.session_id) x.store (key_of-Lacks x.req.session_id h) r in
      let y : WrapperRequest S = record x { store = g.after } in
      let gone : view g.after (key_of x.req.session_id) ≡ none =
        g.view_after (key_of x.req.session_id) ∙ (rw (text_eq_refl (key_of x.req.session_id))) in
      elim (Bool-cases (is_some (view x.store (key_of x.req.session_id)))) [
        | inl e ↦
            let y' = add_cookie (session_cookie [] (pos 0)) y in
            let (x'', out) = unauthenticated y' g.ready_after s h gone in
            (y', x'', rw (key, clear_session_user) (rw g.same (rw e)), g.view_after, rw e, out)
        | inr e ↦
            let (x'', out) = unauthenticated y g.ready_after s h gone in
            (y, x'', rw (key, clear_session_user) (rw g.same (rw e)), g.view_after, rw e, out)
      ]
