-- ===== src/Database/Answering.antt =====
-- src/db/user/pg.cpp: the table of users always answers, while its pool has a connection.
use clean_architecture_cpp.Base.{
  ℕ, ◌≡◌, ◌⊎◌, inl, inr, Bool, true, Bool-cases, some, List, [], ◌∷◌, Text, is_empty,
}
use clean_architecture_cpp.Entities.Log.{Expected}
use clean_architecture_cpp.Entities.User.{User}
use clean_architecture_cpp.Pool.{release_context}
use clean_architecture_cpp.Store.{Run, ◌>>=◌}
use clean_architecture_cpp.Store.Ensures.{Ensures, Returns}
use clean_architecture_cpp.Store.Redis.Laws.{IsReady, IsReady-got}
use clean_architecture_cpp.Database.{
  PostgresResult, PostgresStatement, Postgres, UserPostgres, get_cell, checked, fall_back,
  query_with_fallback, query, found_user, added_user, get_user_by_username_impl, add_user_impl,
  user_db,
}
use clean_architecture_cpp.Api.Warrants.Databases.{IsAnswering}

abbrev IsUp : {W : Type 0} → Postgres W → Type 0
IsUp p = IsReady p.pool

-- A call that returns and leaves the pool with a connection.
abbrev Answered : {A W : Type 0} → Run A (Postgres W) → Type 0
Answered m = Returns m × Ensures (λ a p. IsUp p) m

-- A result without an error has no row, or a row with the cells of a user.
abbrev pub HasUser : PostgresResult → Type 0
HasUser r =
    is_empty r.message ≡ true
    → (r.rows ≡ []) ⊎ ((id hashed : Text) × (get_cell r 0 ≡ some id) × (get_cell r 2 ≡ some hashed))

-- A result without an error has a row with the cell of an id.
abbrev pub HasId : PostgresResult → Type 0
HasId r = is_empty r.message ≡ true → (id : Text) × (get_cell r 0 ≡ some id)

module _ {W : Type 0} (exec_prepared : ℕ → Text → List Text → W → PostgresResult × W)
    (prepare_on : ℕ → PostgresStatement → W → Bool × W) where
  abbrev pub result_of : ℕ → PostgresStatement → List Text → W → PostgresResult
  result_of c st vs w =
      (fall_back exec_prepared prepare_on c st vs (exec_prepared c st.name vs w)).0

  found_user-Answered :
      (name : Text) (r : PostgresResult) (p : Postgres W)
      → HasUser r
      → IsUp p
      → Answered (found_user exec_prepared prepare_on name (checked r) p)
  unfolding found_user checked
  found_user-Answered name r p shape up = elim (Bool-cases (is_empty r.message)) [
    | inl e ↦ elim (shape e) [
      | inl none_found ↦ rw (found_user, checked, e, none_found) (tt, up)
      | inr (id, hashed, first, third) ↦ elim (Bool-cases (is_empty r.rows)) [
        | inl f ↦ rw (found_user, checked, e, f) (tt, up)
        | inr f ↦ rw (found_user, checked, e, f, first, third) (tt, up)
      ]
    ]
    | inr e ↦ rw (found_user, checked, e) (tt, up)
  ]

  added_user-Answered :
      (r : PostgresResult) (p : Postgres W)
      → HasId r
      → IsUp p
      → Answered (added_user exec_prepared prepare_on (checked r) p)
  unfolding added_user checked
  added_user-Answered r p shape up = elim (Bool-cases (is_empty r.message)) [
    | inl e ↦ let (id, first) = shape e in rw (added_user, checked, e, first) (tt, up)
    | inr e ↦ rw (added_user, checked, e) (tt, up)
  ]

  -- A query on a pool with a connection gives its result, and leaves one there.
  query-Answered :
      {A : Type 0} (st : PostgresStatement) (vs : List Text) (p : Postgres W)
      (use_result : Expected PostgresResult → Postgres W → Run A (Postgres W))
      → IsUp p
      → ((c : ℕ) (q : Postgres W)
          → IsUp q
          → Answered (use_result (checked (result_of c st vs p.server)) q))
      → Answered (query exec_prepared prepare_on st vs p >>= use_result)
  unfolding query query_with_fallback
  query-Answered st vs p use_result up k =
      let (c, pool, took, ready) = IsReady-got p.pool up in
      let server =
        (fall_back exec_prepared prepare_on c st vs (exec_prepared c st.name vs p.server)).1 in
      let q : Postgres W = record p { pool = release_context c pool; server = server } in
      rw took (k c q ready)

  -- If what libpq gives for the two statements, unless it is an error, is no row or a user, and a row
  -- with the new id, then the operations on users always return from a pool whose semaphore counts the
  -- idle connections, of which there is one at least, and leave such a pool.
  pub user_db-IsAnswering :
      (u : UserPostgres)
      → ((c : ℕ) (name : Text) (w : W) → HasUser (result_of c u.get_user_statement (name ∷ []) w))
      → ((c : ℕ) (name hashed : Text) (w : W)
          → HasId (result_of c u.add_user_statement (name ∷ hashed ∷ []) w))
      → IsAnswering (user_db exec_prepared prepare_on u) IsUp
  unfolding get_user_by_username_impl add_user_impl
  user_db-IsAnswering u users ids =
      let found = λ (name : Text) (p : Postgres W) (up : IsUp p).
        query-Answered u.get_user_statement (name ∷ []) p (found_user exec_prepared prepare_on name)
          up
          (λ c q ready.
            found_user-Answered name (result_of c u.get_user_statement (name ∷ []) p.server) q
              (users c name p.server) ready) in
      let added = λ (user : User) (p : Postgres W) (up : IsUp p).
        query-Answered u.add_user_statement (user.username ∷ user.hashed ∷ []) p
          (added_user exec_prepared prepare_on) up
          (λ c q ready.
            added_user-Answered
              (result_of c u.add_user_statement (user.username ∷ user.hashed ∷ []) p.server) q
              (ids c user.username user.hashed p.server) ready) in
      record {
        finds = λ name p up. (found name p up).0;
        finds_up = λ name p up. (found name p up).1;
        adds = λ user p up. (added user p up).0;
        adds_up = λ user p up. (added user p up).1;
      }
