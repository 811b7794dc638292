-- ===== src/Adapters/Wrapper/Sessions.antt =====
-- wrapper.hpp: the sessions, over any store that keeps a value for each key.
use clean_architecture_cpp.Base.{
  subst, Option-cases, inl, inr, ℕ, zero, suc, ◌+◌, ◌<◌, ◌%◌, ◌==◌, ◌≡◌, refl, sym, ◌∙◌, ap, true,
  false, if◌then◌else◌, Option, none, some, [], ◌∷◌, ◌++◌, Text, is_empty, push_back, length, Lacks,
  text_eq, text_eq_refl, arith,
}
use clean_architecture_cpp.Base.Integer.{pos}
use clean_architecture_cpp.Entities.User.{User}
use clean_architecture_cpp.Http.Message.{Response}
use clean_architecture_cpp.Store.{Run, ran, IStore, IsStore, Gives}
use clean_architecture_cpp.Store.Redis.Laws.{c_string_of_Lacks}
use clean_architecture_cpp.Adapters.Wrapper.{
  alphabet, session_prefix, char_at, letters, new_id, WrapperRequest, session_cookie, add_cookie,
  session_user, ask, draw, get_session_id, get_session_key, is_auth, get_new_session_id,
  set_session_user, get_session_user,
}

char_at-Lacks : (s : Text) (i : ℕ) → Lacks 0 s → i < length s → (char_at s i == 0) ≡ false
unfolding char_at
char_at-Lacks [] i h k = absurd (omega arith)
char_at-Lacks (c ∷ s) zero (p, h) k = p
char_at-Lacks (c ∷ s) (suc i) (p, h) k = char_at-Lacks s i h (omega arith)

alphabet-Lacks : Lacks 0 alphabet
alphabet-Lacks = ground arith

letters-Lacks : (words : ℕ → ℕ) (i n : ℕ) → Lacks 0 (letters words i n)
unfolding letters
letters-Lacks words i zero = tt
letters-Lacks words i (suc n) = (
  char_at-Lacks alphabet (words i % 62) alphabet-Lacks (omega arith),
  letters-Lacks words (i + 1) n,
)

-- The key of the session with an id.
abbrev pub key_of : Text → Text
key_of id = session_prefix ++ id

pub key_of-Lacks : (id : Text) → Lacks 0 id → Lacks 0 (key_of id)
key_of-Lacks id h = ground (arith, h)

new_id-nonempty : (words : ℕ → ℕ) → is_empty (new_id words) ≡ false
unfolding new_id letters
new_id-nonempty words = refl

pub new_id-Lacks : (words : ℕ → ℕ) → Lacks 0 (new_id words)
unfolding new_id
new_id-Lacks words = letters-Lacks words 0 16

-- A draw that is not the first comes later.
later_draw :
    (n k : ℕ) (p : ℕ → Option Text) (v : Text)
    → p n ≡ some v
    → p (n + k) ≡ none
    → (k' : ℕ) × (k ≡ suc k') × (p ((n + 1) + k') ≡ none)
later_draw n zero p v h e =
    let here : p n ≡ none = subst (λ m. p m ≡ none) (omega arith) e in absurd (cc)
later_draw n (suc k') p v h e = (k', refl, subst (λ m. p m ≡ none) (omega arith) e)

module _ {S : Type 0} (store : IStore S) (getrandom : ℕ → ℕ → ℕ) (Ready : S → Type 0)
    (view : S → Text → Option Text) (laws : IsStore store Ready view) where
  pub get_session_key_opened :
      (x : WrapperRequest S)
      → is_empty x.req.session_id ≡ false
      → get_session_key store getrandom x ≡ (key_of x.req.session_id, x)
  unfolding get_session_key get_session_id
  get_session_key_opened x h = rw h

  -- What a call of the store does to the request, by what it does to the store.
  ask-Gives :
      {A : Type 0} (op : S → Run A S) (x : WrapperRequest S) (a : A) (v : Text → Option Text)
      (g : Gives Ready view (op x.store) a v)
      → ask store getrandom op x ≡ ran a (record x { store = g.after })
  ask-Gives op x a v g = rw g.same

  -- A new session id, and the state behind its choice.
  pub record HasNewId (fuel : ℕ) (x : WrapperRequest S) : Type 0 where
    pub sid : Text
    pub after : WrapperRequest S
    pub same : get_new_session_id store getrandom fuel x ≡ ran sid after
    pub ready : Ready after.store
    pub kept : (j : Text) → view after.store j ≡ view x.store j
    pub unused : view x.store (key_of sid) ≡ none
    pub stored : after.req.session_id ≡ sid
    pub res_kept : after.res ≡ x.res
    pub some_id : is_empty sid ≡ false
    pub plain : Lacks 0 sid

  pub get_new_session_id-HasNewId :
      (fuel k : ℕ) (x : WrapperRequest S)
      → Ready x.store
      → k < fuel
      → view x.store (key_of (new_id (getrandom (x.draws + k)))) ≡ none
      → HasNewId fuel x
  unfolding get_new_session_id
  get_new_session_id-HasNewId zero k x r l e = absurd (omega arith)
  get_new_session_id-HasNewId (suc fuel) k x r l e =
      let id = new_id (getrandom x.draws) in
      let drawn = draw store getrandom x in
      let g =
        laws.exists_lem (key_of id) x.store (key_of-Lacks id (new_id-Lacks (getrandom x.draws)))
          r in
      let y : WrapperRequest S = record drawn { store = g.after } in
      let key = get_session_key_opened drawn (new_id-nonempty (getrandom x.draws)) in
      elim (Option-cases (view x.store (key_of id))) [
        | inl o ↦ record {
          sid = id;
          after = y;
          same = rw (key, get_new_session_id) (rw g.same (rw o));
          ready = g.ready_after;
          kept = g.view_after;
          unused = o;
          stored = refl;
          res_kept = refl;
          some_id = new_id-nonempty (getrandom x.draws);
          plain = new_id-Lacks (getrandom x.draws);
        }
        | inr (v, o) ↦
            let (k', s, e') =
              later_draw x.draws k (λ n. view x.store (key_of (new_id (getrandom n)))) v o e in
            let n =
              get_new_session_id-HasNewId fuel k' y g.ready_after (omega (arith, s))
                (g.view_after (key_of (new_id (getrandom ((x.draws + 1) + k')))) ∙ e') in
            record {
              sid = n.sid;
              after = n.after;
              same = rw (key, get_new_session_id) (rw g.same (rw o n.same));
              ready = n.ready;
              kept = λ j. n.kept j ∙ g.view_after j;
              unused = sym (g.view_after (key_of n.sid)) ∙ n.unused;
              stored = n.stored;
              res_kept = n.res_kept;
              some_id = n.some_id;
              plain = n.plain;
            }
      ]

  module _ (encode : Text → Text → Text) (decode : Text → Option (Option Text × Option Text)) where
    -- A session that was opened for a user, with the id `sid`.
    pub record HasOpened (fuel : ℕ) (user : User) (x : WrapperRequest S) : Type 0 where
      pub sid : Text
      pub after : WrapperRequest S
      pub same : set_session_user store getrandom encode decode fuel user x ≡ ran none after
      pub ready : Ready after.store
      pub unused : view x.store (key_of sid) ≡ none
      pub opened :
          (j : Text)
          → view after.store j ≡ (
              if text_eq (key_of sid) j
              then some (encode user.id user.username)
              else view x.store j)
      pub stored : after.req.session_id ≡ sid
      pub sent :
          after.res
          ≡ record x.res { cookies = push_back x.res.cookies (session_cookie sid (pos 3600)) }
      pub some_id : is_empty sid ≡ false
      pub plain : Lacks 0 sid

    -- On a store that is ready and keeps its laws, `set_session_user` returns, if one of the first `fuel` ids that are drawn is not in the store: it
    -- then takes an id that the store did not have, stores the user under it, leaves all other keys
    -- as they are, and sends the id in a cookie.
    pub set_session_user-HasOpened :
        (fuel k : ℕ) (user : User) (x : WrapperRequest S)
        → Ready x.store
        → k < fuel
        → view x.store (key_of (new_id (getrandom (x.draws + k)))) ≡ none
        → HasOpened fuel user x
    unfolding set_session_user
    set_session_user-HasOpened fuel k user x r l e =
        let n = get_new_session_id-HasNewId fuel k x r l e in
        let y = n.after in
        let key =
          get_session_key_opened y (ap is_empty n.stored ∙ n.some_id)
          ∙ ap (λ t. (key_of t, y)) n.stored in
        let g =
          laws.set_byte_array_lem (key_of n.sid) (encode user.id user.username) y.store
            (key_of-Lacks n.sid n.plain) n.ready in
        record {
          sid = n.sid;
          after = add_cookie (session_cookie n.sid (pos 3600)) (record y { store = g.after });
          same = rw (n.same, set_session_user) (rw key (rw g.same));
          ready = g.ready_after;
          unused = n.unused;
          opened = λ j.
              g.view_after j
              ∙ ap
                  (λ o. if text_eq (key_of n.sid) j then some (encode user.id user.username) else o)
                  (n.kept j);
          stored = n.stored;
          sent =
              let send : Response → Response =
                λ r. record r { cookies = push_back r.cookies (session_cookie n.sid (pos 3600)) } in
              ap send n.res_kept;
          some_id = n.some_id;
          plain = n.plain;
        }

    -- The user of an open session is read back, and the session is authenticated, if flatbuffers reads
    -- what it writes and the user's id and name hold no zero byte.
    pub get_session_user-HasOpened :
        (fuel : ℕ) (user : User) (x : WrapperRequest S) (o : HasOpened fuel user x)
        → ((id name : Text) → decode (encode id name) ≡ some (some id, some name))
        → Lacks 0 user.id
        → Lacks 0 user.username
        → ((x' : WrapperRequest S) × (get_session_user store getrandom encode decode o.after
              ≡ ran (some (session_user user.id user.username)) x')
            × Ready x'.store)
          × ((x' : WrapperRequest S) × (is_auth store getrandom o.after ≡ ran true x'))
    unfolding get_session_user is_auth
    get_session_user-HasOpened fuel user x o reads a b =
        let y = o.after in
        let key =
          get_session_key_opened y (ap is_empty o.stored ∙ o.some_id)
          ∙ ap (λ t. (key_of t, y)) o.stored in
        let here : view y.store (key_of o.sid) ≡ some (encode user.id user.username) =
          o.opened (key_of o.sid) ∙ (rw (text_eq_refl (key_of o.sid))) in
        let g =
          laws.get_byte_array_lem (key_of o.sid) y.store (key_of-Lacks o.sid o.plain) o.ready in
        let h = laws.exists_lem (key_of o.sid) y.store (key_of-Lacks o.sid o.plain) o.ready in
        (
          (
            record y { store = g.after },
            rw (key, get_session_user)
                (rw g.same (
                  rw (
                    here,
                    reads user.id user.username,
                    c_string_of_Lacks user.id a,
                    c_string_of_Lacks user.username b,
                  ))),
            g.ready_after,
          ),
          (record y { store = h.after }, rw (key, is_auth) (rw h.same (rw here))),
        )

    -- If the store is ready and keeps its laws, one of the first `fuel` session ids that are drawn is not in the store, flatbuffers reads back
    -- what it writes, and the user's id and name hold no zero byte, then `set_session_user` returns
    -- without an error, and `get_session_user`, called next, returns that user.
    pub get_session_user-set_session_user :
        (fuel k : ℕ) (user : User) (x : WrapperRequest S)
        → Ready x.store
        → k < fuel
        → view x.store (key_of (new_id (getrandom (x.draws + k)))) ≡ none
        → ((id name : Text) → decode (encode id name) ≡ some (some id, some name))
        → Lacks 0 user.id
        → Lacks 0 user.username
        → (x' x'' : WrapperRequest S) × (set_session_user store getrandom encode decode fuel user x
            ≡ ran none x')
          × (get_session_user store getrandom encode decode x'
              ≡ ran (some (session_user user.id user.username)) x'')
    get_session_user-set_session_user fuel k user x r l e reads a b =
        let o = set_session_user-HasOpened fuel k user x r l e in
        let ((x'', same, ready), auth) = get_session_user-HasOpened fuel user x o reads a b in
        (o.after, x'', o.same, same)
