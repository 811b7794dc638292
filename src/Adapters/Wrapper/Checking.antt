-- ===== src/Adapters/Wrapper/Checking.antt =====
-- wrapper.hpp, `is_auth`: whether the session of a request is open.
use clean_architecture_cpp.Base.{ℕ, ◌≡◌, refl, Bool-cases, inl, inr, Option, Text, is_empty, Lacks}
use clean_architecture_cpp.Store.{ran, IStore, IsStore, is_some}
use clean_architecture_cpp.Adapters.Wrapper.{
  new_id, WrapperRequest, draw, get_session_id, get_session_key, is_auth,
}
use clean_architecture_cpp.Adapters.Wrapper.Sessions.{key_of, key_of-Lacks, new_id-Lacks}

module _ {S : Type 0} (store : IStore S) (getrandom : ℕ → ℕ → ℕ) (Ready : S → Type 0)
    (view : S → Text → Option Text) (laws : IsStore store Ready view) where
  -- `is_auth` tells whether the key of the request's session is in the store, where a request
  -- without a session id draws one, and leaves the store's values and the response as they are.
  pub record IsChecked (x : WrapperRequest S) : Type 0 where
    pub after : WrapperRequest S
    pub same :
        is_auth store getrandom x
        ≡ ran (is_some (view x.store (key_of (get_session_id store getrandom x).0))) after
    pub ready : Ready after.store
    pub kept : (j : Text) → view after.store j ≡ view x.store j
    pub req_same : after.req ≡ (get_session_id store getrandom x).1.req
    pub draws_same : after.draws ≡ (get_session_id store getrandom x).1.draws
    pub res_kept : after.res ≡ x.res

  pub is_auth-IsChecked :
      (x : WrapperRequest S) → Ready x.store → Lacks 0 x.req.session_id → IsChecked x
  unfolding is_auth get_session_key get_session_id
  is_auth-IsChecked x r h = elim (Bool-cases (is_empty x.req.session_id)) [
    | inl e ↦
        let id = new_id (getrandom x.draws) in
        let g =
          laws.exists_lem (key_of id) x.store (key_of-Lacks id (new_id-Lacks (getrandom x.draws)))
            r in
        record {
          after = record (draw store getrandom x) { store = g.after };
          same = rw e (rw g.same);
          ready = g.ready_after;
          kept = g.view_after;
          req_same = rw e;
          draws_same = rw e;
          res_kept = refl;
        }
    | inr e ↦
        let id = x.req.session_id in
        let g = laws.exists_lem (key_of id) x.store (key_of-Lacks id h) r in
        record {
          after = record x { store = g.after };
          same = rw e (rw g.same);
          ready = g.ready_after;
          kept = g.view_after;
          req_same = rw e;
          draws_same = rw e;
          res_kept = refl;
        }
  ]
