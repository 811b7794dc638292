-- ===== src/Database/Logins.antt =====
-- pg.cpp under login.hpp: the query for a user on a connection that has added one.
use clean_architecture_cpp.Base.{
  ℕ, ◌+◌, ◌<◌, ◌≡◌, Bool, false, ◌||◌, Option, none, some, List, [], ◌∷◌, Text, codes, is_empty,
  Lacks,
}
use clean_architecture_cpp.Entities.Log.{Log, value, unexpected}
use clean_architecture_cpp.Entities.User.{Crypto}
use clean_architecture_cpp.Pool.{Pool, got, get_context, release_context}
use clean_architecture_cpp.Store.{ran, IStore, IsStore}
use clean_architecture_cpp.Adapters.Wrapper.{new_id, get_session_id}
use clean_architecture_cpp.Adapters.Wrapper.Sessions.{key_of}
use clean_architecture_cpp.UseCases.{AuthBody, World, parse_body, login}
use clean_architecture_cpp.UseCases.Login.{LoginLeaves, login-LoginLeaves}
use clean_architecture_cpp.Database.{
  PostgresResult, PostgresStatement, Postgres, insert_user, make_user_postgres, prepare, query,
  checked, query_log, found_user, get_user_by_username_impl, user_db,
}
use clean_architecture_cpp.Database.Statements.{IsServer, query_with_fallback_known}

module _ {W : Type 0} (exec_prepared : ℕ → Text → List Text → W → PostgresResult × W)
    (prepare_on : ℕ → PostgresStatement → W → Bool × W) (prepared : W → ℕ → Text → Option Text)
    (answers : Text → List Text → W → PostgresResult × W) (accepts : Text → Bool)
    (pg_laws : IsServer exec_prepared prepare_on prepared answers accepts) where
  -- The query for a user fails, with some log, where the insertion of one was prepared and does not
  -- take a single parameter.
  get_user_fails :
      (made p : Postgres W) (name : Text) (c : ℕ) (pool : Pool)
      → get_context p.pool ≡ got c pool
      → prepared p.server c (make_user_postgres made).add_user_statement.name ≡ some insert_user
      → is_empty (answers insert_user (name ∷ []) p.server).0.message ≡ false
      → (log : Log) × (p' : Postgres W) × (get_user_by_username_impl exec_prepared prepare_on
            (make_user_postgres made)
            name
            p
          ≡ ran (unexpected log) p')
  unfolding get_user_by_username_impl query make_user_postgres prepare checked found_user
  get_user_fails made p name c pool took h refused =
      let answer = answers insert_user (name ∷ []) p.server in
      (
        record (query_log answer.0) { db = codes "users" },
        record p { pool = release_context c pool; server = answer.1 },
        rw
            (query_with_fallback_known exec_prepared prepare_on prepared answers accepts pg_laws
              (make_user_postgres made).get_user_statement (name ∷ []) p c pool insert_user took h)
            (rw refused),
      )

  module _ {S : Type 0} (store : IStore S) (getrandom : ℕ → ℕ → ℕ) (crypto : Crypto)
      (parse_json : Text → Option (Text × Text))
      (login_request : Text → Option (Bool × Option Text × Option Text))
      (encode : Text → Text → Text) (decode : Text → Option (Option Text × Option Text)) (fuel : ℕ)
      (Ready : S → Type 0) (view : S → Text → Option Text) (laws : IsStore store Ready view) where
    -- Once the insertion of a user was prepared on the connection that a login takes, and the server
    -- refuses to run it with one parameter, the login is answered 401 whatever its name and password
    -- are, and no session is opened. The login comes without an open session, under a session id
    -- without a zero byte, with a name and a password that are not empty; the store is ready, and one
    -- of the first `fuel` session ids drawn next is free.
    pub login_after_registration :
        (made : Postgres W) (w : World S (Postgres W)) (body : AuthBody) (c : ℕ) (pool : Pool)
        (k : ℕ)
        → get_context w.users.pool ≡ got c pool
        → prepared w.users.server c (make_user_postgres made).add_user_statement.name
          ≡ some insert_user
        → is_empty (answers insert_user (body.username ∷ []) w.users.server).0.message ≡ false
        → Ready w.request.store
        → Lacks 0 w.request.req.session_id
        → view w.request.store (key_of (get_session_id store getrandom w.request).0) ≡ none
        → parse_body parse_json login_request w.request.req ≡ some (value body)
        → (is_empty body.username || is_empty body.password) ≡ false
        → k < fuel
        → view w.request.store
            (key_of (new_id (getrandom ((get_session_id store getrandom w.request).1.draws + k))))
          ≡ none
        → let users = user_db exec_prepared prepare_on (make_user_postgres made) in
          (w' : World S (Postgres W)) × (login store getrandom users crypto parse_json login_request
              encode decode fuel w
            ≡ ran tt w')
          × LoginLeaves store getrandom users crypto parse_json login_request encode decode fuel
              Ready view laws none w w'
    login_after_registration made w body c pool k took h refused r lacks out parse full l free =
        let (log, p', failed) = get_user_fails made w.users body.username c pool took h refused in
        let (w', same, leaves, kept) =
          login-LoginLeaves store getrandom
            (user_db exec_prepared prepare_on (make_user_postgres made)) crypto parse_json
            login_request encode decode fuel Ready view laws w body (unexpected log) p' k r lacks
            out parse full failed tt l free in
        (w', same, leaves)
