-- ===== src/Api/Warrants/Traces.antt =====
-- The API over any sequence of requests, each answered before the next is taken.
use clean_architecture_cpp.Base.{
  ℕ, ◌≡◌, sym, subst, ◌∙◌, Bool, Option, none, some, Option-cases, ◌⊎◌, inl, inr, Text, Lacks,
  Throws, ret,
}
use clean_architecture_cpp.Entities.User.{Crypto}
use clean_architecture_cpp.Http.Message.{Request, Response}
use clean_architecture_cpp.Http.Router.{answer}
use clean_architecture_cpp.Store.{Run, ran, waits, crashes, IStore, IsStore}
use clean_architecture_cpp.Store.Ensures.{Ensures, Ensures-weaken, Ensures-any}
use clean_architecture_cpp.Adapters.Wrapper.{WrapperRequest}
use clean_architecture_cpp.UseCases.{IUserDb, World, logout, current_user}
use clean_architecture_cpp.Api.{
  Endpoint, get_user_auth, login_auth, logout_auth, register_auth, Backend, wrap, backend_of,
  unwrap, execute, answer_dispatched, serve_api,
}
use clean_architecture_cpp.Api.Routes.{served_by, serve_api-served_by}
use clean_architecture_cpp.Api.Warrants.{IsWarranted, IsSound}
use clean_architecture_cpp.Api.Warrants.Logins.{login-Sound, on_request-Ensures}
use clean_architecture_cpp.Api.Warrants.Answers.{
  register-Sound, logout-Sound, Discloses, current_user-Discloses,
}

module _ {S D : Type 0} (store : IStore S) (getrandom : ℕ → ℕ → ℕ) (users : IUserDb D)
    (crypto : Crypto) (parse_json : Text → Option (Text × Text))
    (login_request : Text → Option (Bool × Option Text × Option Text)) (encode : Text → Text → Text)
    (decode : Text → Option (Option Text × Option Text)) (dump : Text → Text → Option Text)
    (fuel : ℕ) (Ready : S → Type 0) (view : S → Text → Option Text)
    (laws : IsStore store Ready view)
    (reads : (id name : Text) → decode (encode id name) ≡ some (some id, some name)) where
  abbrev Sound : WrapperRequest S → Type 0
  Sound x = IsSound users crypto encode Ready view x

  -- The store is ready, and every value in it is that of a session of a user who was credited.
  pub record IsSafe (b : Backend S D) : Type 0 where
    pub ready : Ready b.store
    pub warranted : (k : Text) → IsWarranted users crypto encode (view b.store k)

  execute-Sound :
      (e : Endpoint) (w : World S D)
      → Sound w.request
      → Ensures
          (λ t w'. Sound w'.request)
          (execute store getrandom users crypto parse_json login_request encode decode dump fuel e
            w)
  unfolding execute
  execute-Sound get_user_auth w h =
      on_request-Ensures (λ t x. Sound x) w.users
        (current_user store getrandom encode decode dump w.request)
        (Ensures-weaken
          (λ t y.
            Sound y
            × Discloses store getrandom users crypto encode decode Ready view laws dump
                w.request.res y.res)
          (λ t y. Sound y) (current_user store getrandom encode decode dump w.request)
          (current_user-Discloses store getrandom users crypto encode decode Ready view laws dump
            reads w.request h)
          (λ t y (sound, shown). sound))
  execute-Sound login_auth w h =
      login-Sound store getrandom users crypto parse_json login_request encode decode dump fuel
        Ready view laws w h
  execute-Sound logout_auth w h =
      on_request-Ensures (λ t x. Sound x) w.users (logout store getrandom encode decode w.request)
        (logout-Sound store getrandom users crypto encode decode Ready view laws w.request h reads)
  execute-Sound register_auth w h =
      register-Sound store getrandom users crypto encode decode Ready view laws parse_json w h

  -- What holds of a call that returned holds of what it left.
  unwrap-ran :
      (P : World S D → Type 0) (r : Run Unit (World S D)) (req : Request) (res : Response)
      (b : Backend S D)
      → Ensures (λ t w. P w) r
      → unwrap r ≡ ret (req, res, b)
      → (w : World S D) × P w × (w.request.res ≡ res) × (backend_of w ≡ b)
  unwrap-ran P (ran t w) req res b h e = (w, h, cc, cc)
  unwrap-ran P waits req res b h e = absurd (cc)
  unwrap-ran P crashes req res b h e = absurd (cc)

  -- One request, under a session id without a zero byte, that the server has answered.
  pub data Serves (b : Backend S D) : Backend S D → Type 0 where
    serves :
        (req : Request) (res : Response) (req' : Request) (res' : Response) (b' : Backend S D)
        → Lacks 0 req.session_id
        → serve_api store getrandom users crypto parse_json login_request encode decode dump fuel
            req res b
          ≡ ret (req', res', b')
        → Serves b b'

  pub data Reach (b : Backend S D) : Backend S D → Type 0 where
    here : Reach b b
    next : {c d : Backend S D} → Reach b c → Serves c d → Reach b d

  -- What the server leaves of a request, by its endpoint.
  pub serve_api-ran :
      (P : Endpoint → World S D → Type 0) (req : Request) (res : Response) (req' : Request)
      (res' : Response) (b c : Backend S D)
      → ((e : Endpoint)
          → Ensures
              (λ t w. P e w)
              (execute store getrandom users crypto parse_json login_request encode decode dump fuel
                e
                (wrap req res b)))
      → serve_api store getrandom users crypto parse_json login_request encode decode dump fuel req
          res b
        ≡ ret (req', res', c)
      → ((served_by req ≡ none) × (b ≡ c))
        ⊎ ((e : Endpoint) × (w : World S D) × (served_by req ≡ some e)
            × P e w
            × (w.request.res ≡ res')
            × (backend_of w ≡ c))
  serve_api-ran P req res req' res' b c h e =
      let e' =
        sym (
          serve_api-served_by store getrandom users crypto parse_json login_request encode decode
            dump fuel req res b)
        ∙ e in
      elim (Option-cases (served_by req)) [
        | inl f ↦
            let e'' : ◌≡◌ {A = Throws (Request × Response × Backend S D)}
                (answer_dispatched store getrandom users crypto parse_json login_request encode
                  decode dump fuel req res b (answer res none))
                (ret (req', res', c)) =
              rw f at e' in
            inl (f, cc)
        | inr (endpoint, f) ↦
            let e'' : ◌≡◌ {A = Throws (Request × Response × Backend S D)}
                (answer_dispatched store getrandom users crypto parse_json login_request encode
                  decode dump fuel req res b (answer res (some endpoint)))
                (ret (req', res', c)) =
              rw f at e' in
            let (w, p, shown, left) =
              unwrap-ran (P endpoint)
                (execute store getrandom users crypto parse_json login_request encode decode dump
                  fuel endpoint (wrap req res b))
                req' res' c (h endpoint) e'' in
            inr (endpoint, w, f, p, shown, left)
      ]

  -- What a user of the endpoint learns, where it is the one for the current user.
  abbrev Tells : Response → Endpoint → World S D → Type 0
  Tells res get_user_auth w =
      Discloses store getrandom users crypto encode decode Ready view laws dump res w.request.res
  Tells res login_auth w = Unit
  Tells res logout_auth w = Unit
  Tells res register_auth w = Unit

  execute-Tells :
      (e : Endpoint) (w : World S D)
      → Sound w.request
      → Ensures
          (λ t w'. Tells w.request.res e w')
          (execute store getrandom users crypto parse_json login_request encode decode dump fuel e
            w)
  unfolding execute
  execute-Tells get_user_auth w h =
      on_request-Ensures
        (λ t x.
          Discloses store getrandom users crypto encode decode Ready view laws dump w.request.res
            x.res)
        w.users (current_user store getrandom encode decode dump w.request)
        (Ensures-weaken
          (λ t y.
            Sound y
            × Discloses store getrandom users crypto encode decode Ready view laws dump
                w.request.res y.res)
          (λ t y.
            Discloses store getrandom users crypto encode decode Ready view laws dump w.request.res
              y.res)
          (current_user store getrandom encode decode dump w.request)
          (current_user-Discloses store getrandom users crypto encode decode Ready view laws dump
            reads w.request h)
          (λ t y (sound, shown). shown))
  execute-Tells login_auth w h = Ensures-any _
  execute-Tells logout_auth w h = Ensures-any _
  execute-Tells register_auth w h = Ensures-any _

  pub wrap-Sound :
      (req : Request) (res : Response) (b : Backend S D)
      → Lacks 0 req.session_id
      → IsSafe b
      → Sound (wrap req res b).request
  wrap-Sound req res b lacks h = record { ready = h.ready; plain = lacks; warranted = h.warranted }

  Serves-IsSafe : {b c : Backend S D} → Serves b c → IsSafe b → IsSafe c
  Serves-IsSafe {b} (serves req res req' res' c lacks e) h =
      elim (serve_api-ran (λ e w. Sound w.request) req res req' res' b c
        (λ e. execute-Sound e (wrap req res b) (wrap-Sound req res b lacks h)) e) [
          | inl (f, same) ↦ subst IsSafe same h
          | inr (endpoint, w, f, sound, shown, left) ↦
              subst IsSafe left (record { ready = sound.ready; warranted = sound.warranted })
        ]

  pub Reach-IsSafe : {b c : Backend S D} → Reach b c → IsSafe b → IsSafe c
  Reach-IsSafe here h = h
  Reach-IsSafe (next r s) h = Serves-IsSafe s (Reach-IsSafe r h)

  -- Whatever requests are answered one after another, under session ids without a zero byte, from a
  -- store that is ready, keeps its laws and is empty: all bytes that the store then holds are those of
  -- a session of a user whom the database, in some state, has found by a name, and of whom a password
  -- was verified, if flatbuffers reads back what it writes.
  pub Reach-IsWarranted :
      {b c : Backend S D} (k : Text)
      → Ready b.store
      → ((j : Text) → view b.store j ≡ none)
      → Reach b c
      → IsWarranted users crypto encode (view c.store k)
  Reach-IsWarranted {b} k r empty reach =
      (Reach-IsSafe reach (record {
        ready = r;
        warranted = λ j. subst (IsWarranted users crypto encode) (sym (empty j)) tt;
      })).warranted
        k

  -- Whatever requests were answered one after another, under session ids without a zero byte, from a
  -- store that is ready, keeps its laws and is empty: a next request for the current user, under such a
  -- session id, that is answered gets a refusal of the status 401 or 500, or the status 200 and the
  -- text of a user whom the database, in some state, has found by a name, and of whom a password was
  -- verified, if flatbuffers reads back what it writes.
  pub Reach-Discloses :
      {b c : Backend S D} (req : Request) (res : Response) (req' : Request) (res' : Response)
      (d : Backend S D)
      → Ready b.store
      → ((j : Text) → view b.store j ≡ none)
      → Reach b c
      → Lacks 0 req.session_id
      → served_by req ≡ some get_user_auth
      → serve_api store getrandom users crypto parse_json login_request encode decode dump fuel req
          res c
        ≡ ret (req', res', d)
      → Discloses store getrandom users crypto encode decode Ready view laws dump res res'
  Reach-Discloses {b} {c} req res req' res' d r empty reach lacks served e =
      let safe = Reach-IsSafe reach (record {
        ready = r;
        warranted = λ j. subst (IsWarranted users crypto encode) (sym (empty j)) tt;
      }) in
      elim (serve_api-ran (Tells res) req res req' res' c d
        (λ f. execute-Tells f (wrap req res c) (wrap-Sound req res c lacks safe)) e) [
          | inl (f, same) ↦ absurd (cc)
          | inr (endpoint, w, f, told, shown, left) ↦
              let which : endpoint ≡ get_user_auth = cc in
              subst (Discloses store getrandom users crypto encode decode Ready view laws dump res)
                shown (subst (λ u. Tells res u w) which told)
        ]
