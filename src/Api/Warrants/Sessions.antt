-- ===== src/Api/Warrants/Sessions.antt =====
-- wrapper.hpp: what the operations on sessions keep.
use clean_architecture_cpp.Base.{
  ℕ, zero, suc, ◌≡◌, refl, sym, ◌∙◌, subst, Bool, true, false, if◌then◌else◌, Bool-cases, inl, inr,
  Option, none, some, [], Text, text_eq, is_empty, Lacks,
}
use clean_architecture_cpp.Base.Integer.{pos}
use clean_architecture_cpp.Entities.Log.{value}
use clean_architecture_cpp.Entities.User.{User, Crypto}
use clean_architecture_cpp.Store.{Run, ran, IStore, IsStore, Gives, is_some}
use clean_architecture_cpp.Store.Redis.{c_string}
use clean_architecture_cpp.Store.Ensures.{Ensures, Ensures-bind, Ensures-weaken, Ensures-elim}
use clean_architecture_cpp.Adapters.Wrapper.{
  WrapperRequest, ask, draw, get_session_id, get_session_key, is_auth, get_new_session_id,
  set_session_user, get_session_user, clear_session_user, read_session, session_user, new_id,
  add_cookie, session_cookie,
}
use clean_architecture_cpp.Adapters.Wrapper.Sessions.{key_of-Lacks, new_id-Lacks}
use clean_architecture_cpp.UseCases.{IUserDb}
use clean_architecture_cpp.Api.Warrants.{IsCredited, IsWarranted, IsSound}

module _ {S D : Type 0} (store : IStore S) (getrandom : ℕ → ℕ → ℕ) (users : IUserDb D)
    (crypto : Crypto) (encode : Text → Text → Text)
    (decode : Text → Option (Option Text × Option Text)) (Ready : S → Type 0)
    (view : S → Text → Option Text) (laws : IsStore store Ready view) where
  abbrev pub Sound : WrapperRequest S → Type 0
  Sound x = IsSound users crypto encode Ready view x

  -- What is left: a sound request, with the response that there was.
  abbrev pub Keeps : WrapperRequest S → WrapperRequest S → Type 0
  Keeps x y = Sound y × (y.res ≡ x.res)

  draw-Sound : (x : WrapperRequest S) → Sound x → Sound (draw store getrandom x)
  draw-Sound x h = record {
    ready = h.ready;
    plain = new_id-Lacks (getrandom x.draws);
    warranted = h.warranted;
  }

  -- The key of the session, whose id holds no zero byte.
  pub get_session_key-Sound :
      (x : WrapperRequest S)
      → Sound x
      → Lacks 0 (get_session_key store getrandom x).0
        × Keeps x (get_session_key store getrandom x).1
  unfolding get_session_key get_session_id
  get_session_key-Sound x h = elim (Bool-cases (is_empty x.req.session_id)) [
    | inl e ↦ rw e (
      key_of-Lacks (new_id (getrandom x.draws)) (new_id-Lacks (getrandom x.draws)),
      (draw-Sound x h, refl),
    )
    | inr e ↦ rw e (key_of-Lacks x.req.session_id h.plain, (h, refl))
  ]

  -- A call of the store that leaves warranted values.
  ask-Sound :
      {A : Type 0} (op : S → Run A S) (x : WrapperRequest S) (a : A) (v : Text → Option Text)
      → Sound x
      → Gives Ready view (op x.store) a v
      → ((k : Text) → IsWarranted users crypto encode (v k))
      → Ensures (λ b y. Keeps x y × (b ≡ a)) (ask store getrandom op x)
  ask-Sound op x a v h g w = rw g.same (
    (
      record {
        ready = g.ready_after;
        plain = h.plain;
        warranted = λ k. subst (IsWarranted users crypto encode) (sym (g.view_after k)) (w k);
      },
      refl,
    ),
    refl,
  )

  IsWarranted-if :
      (b : Bool) (o p : Option Text)
      → IsWarranted users crypto encode o
      → IsWarranted users crypto encode p
      → IsWarranted users crypto encode (if b then o else p)
  IsWarranted-if true o p h k = h
  IsWarranted-if false o p h k = k

  pub is_auth-Sound :
      (x : WrapperRequest S) → Sound x → Ensures (λ a y. Keeps x y) (is_auth store getrandom x)
  unfolding is_auth
  is_auth-Sound x h =
      let (key, x') = get_session_key store getrandom x in
      let (lacks, (h', res)) = get_session_key-Sound x h in
      Ensures-weaken (λ b y. Keeps x' y × (b ≡ is_some (view x'.store key))) (λ b y. Keeps x y)
        (ask store getrandom (store.exists key) x')
        (ask-Sound (store.exists key) x' (is_some (view x'.store key)) (view x'.store) h'
          (laws.exists_lem key x'.store lacks h'.ready) h'.warranted)
        (λ b y ((sound, same), e). (sound, same ∙ res))

  get_new_session_id-Sound :
      (fuel : ℕ) (x : WrapperRequest S)
      → Sound x
      → Ensures (λ sid y. Sound y) (get_new_session_id store getrandom fuel x)
  unfolding get_new_session_id is_auth
  get_new_session_id-Sound zero x h = tt
  get_new_session_id-Sound (suc fuel) x h =
      let drawn = draw store getrandom x in
      Ensures-bind (λ b y. Keeps drawn y) (λ sid y. Sound y) (is_auth store getrandom drawn) _
        (is_auth-Sound drawn (draw-Sound x h))
        (λ taken y (sound, same).
          Ensures-elim (λ sid z. Sound z) taken (get_new_session_id store getrandom fuel y)
            (ran y.req.session_id y) (get_new_session_id-Sound fuel y sound) sound)

  pub set_session_user-Sound :
      (fuel : ℕ) (user : User) (x : WrapperRequest S)
      → Sound x
      → IsCredited users crypto user
      → Ensures (λ log y. Sound y) (set_session_user store getrandom encode decode fuel user x)
  unfolding set_session_user
  set_session_user-Sound fuel user x h credit =
      let bytes = encode user.id user.username in
      Ensures-bind (λ sid y. Sound y) (λ log y. Sound y) (get_new_session_id store getrandom fuel x)
        _ (get_new_session_id-Sound fuel x h)
        (λ sid y sound.
          let (key, y') = get_session_key store getrandom y in
          let (lacks, (sound', res)) = get_session_key-Sound y sound in
          let v : Text → Option Text = λ j. if text_eq key j then some bytes else view y'.store j in
          Ensures-bind (λ b z. Keeps y' z × (b ≡ true)) (λ log z. Sound z)
            (ask store getrandom (store.set_byte_array key bytes) y') _
            (ask-Sound (store.set_byte_array key bytes) y' true v sound'
              (laws.set_byte_array_lem key bytes y'.store lacks sound'.ready)
              (λ k.
                IsWarranted-if (text_eq key k) (some bytes) (view y'.store k) (user, credit, refl)
                  (sound'.warranted k)))
            (λ b z ((kept, same), e). record {
              ready = kept.ready;
              plain = kept.plain;
              warranted = kept.warranted;
            }))

  pub clear_session_user-Sound :
      (x : WrapperRequest S)
      → Sound x
      → Ensures (λ cleared y. Sound y) (clear_session_user store getrandom x)
  unfolding clear_session_user
  clear_session_user-Sound x h =
      let (key, x') = get_session_key store getrandom x in
      let (lacks, (sound, res)) = get_session_key-Sound x h in
      let v : Text → Option Text = λ j. if text_eq key j then none else view x'.store j in
      Ensures-bind (λ b y. Keeps x' y × (b ≡ is_some (view x'.store key))) (λ cleared y. Sound y)
        (ask store getrandom (store.del key) x') _
        (ask-Sound (store.del key) x' (is_some (view x'.store key)) v sound
          (laws.del_lem key x'.store lacks sound.ready)
          (λ k. IsWarranted-if (text_eq key k) none (view x'.store k) tt (sound.warranted k)))
        (λ cleared y ((kept, same), e).
          elim cleared as (λ b. Sound (if b then add_cookie (session_cookie [] (pos 0)) y else y)) [
            | true ↦ record { ready = kept.ready; plain = kept.plain; warranted = kept.warranted }
            | false ↦ kept
          ])

  -- A user whom the session tells is one who was credited.
  abbrev pub IsTold : Option User → Type 0
  IsTold none = Unit
  IsTold (some told) =
      (user : User) × IsCredited users crypto user
      × (told ≡ session_user (c_string user.id) (c_string user.username))

  module _ (reads : (id name : Text) → decode (encode id name) ≡ some (some id, some name)) where
    read_session-IsTold :
        (bytes : Option Text) (x : WrapperRequest S)
        → Sound x
        → IsWarranted users crypto encode bytes
        → Ensures
            (λ o y. Keeps x y × IsTold o)
            (read_session store getrandom encode decode (value bytes) x)
    read_session-IsTold none x h w = ((h, refl), tt)
    read_session-IsTold (some bytes) x h (user, credit, e) =
        rw (e, reads user.id user.username) ((h, refl), (user, credit, refl))

    pub get_session_user-IsTold :
        (x : WrapperRequest S)
        → Sound x
        → Ensures (λ o y. Keeps x y × IsTold o) (get_session_user store getrandom encode decode x)
    unfolding get_session_user
    get_session_user-IsTold x h =
        let (key, x') = get_session_key store getrandom x in
        let (lacks, (sound, res)) = get_session_key-Sound x h in
        Ensures-bind (λ b y. Keeps x' y × (b ≡ value (view x'.store key)))
          (λ o y. Keeps x y × IsTold o) (ask store getrandom (store.get_byte_array key) x') _
          (ask-Sound (store.get_byte_array key) x' (value (view x'.store key)) (view x'.store) sound
            (laws.get_byte_array_lem key x'.store lacks sound.ready) sound.warranted)
          (λ b y ((kept, same), e). rw e (
            Ensures-weaken (λ o z. Keeps y z × IsTold o) (λ o z. Keeps x z × IsTold o)
              (read_session store getrandom encode decode (value (view x'.store key)) y)
              (read_session-IsTold (view x'.store key) y kept (sound.warranted key))
              (λ o z ((k, r), told). ((k, r ∙ same ∙ res), told))))
