-- ===== src/Database/Statements.antt =====
-- pg.cpp: which query a prepared statement runs.
use clean_architecture_cpp.Base.{
  ℕ, ◌≡◌, ◌∙◌, Bool, true, false, Bool-cases, inl, inr, Option, none, some, List, [], ◌∷◌, Text,
}
use clean_architecture_cpp.Entities.User.{User}
use clean_architecture_cpp.Pool.{Pool, got, get_context, release_context}
use clean_architecture_cpp.Store.{ran}
use clean_architecture_cpp.Database.{
  PostgresResult, PostgresStatement, Postgres, select_user, make_user_postgres, fall_back,
  query_with_fallback, query, checked, added_user, add_user_impl, prepare,
}

-- What the Postgres documentation says of prepared statements. `prepared` is the query that a name
-- stands for on a connection, `answers` what a query answers, `accepts` which queries can be prepared.
pub record IsServer {W : Type 0} (exec_prepared : ℕ → Text → List Text → W → PostgresResult × W)
    (prepare_on : ℕ → PostgresStatement → W → Bool × W) (prepared : W → ℕ → Text → Option Text)
    (answers : Text → List Text → W → PostgresResult × W) (accepts : Text → Bool) : Type 0 where
  pub runs :
      (c : ℕ) (n q : Text) (vs : List Text) (w : W)
      → prepared w c n ≡ some q
      → exec_prepared c n vs w ≡ answers q vs w
  pub misses :
      (c : ℕ) (n : Text) (vs : List Text) (w : W)
      → prepared w c n ≡ none
      → (r : PostgresResult) × (exec_prepared c n vs w ≡ (r, w)) × (r.fatal_error ≡ true)
  pub prepares :
      (c : ℕ) (st : PostgresStatement) (w : W)
      → prepared w c st.name ≡ none
      → accepts st.query_text ≡ true
      → (w' : W) × (prepare_on c st w ≡ (true, w')) × (prepared w' c st.name ≡ some st.query_text)
  pub refuses :
      (c : ℕ) (st : PostgresStatement) (q : Text) (w : W)
      → prepared w c st.name ≡ some q
      → prepare_on c st w ≡ (false, w)
  pub keeps :
      (c : ℕ) (n q : Text) (vs : List Text) (w : W)
      → prepared (answers q vs w).1 c n ≡ prepared w c n

module _ {W : Type 0} (exec_prepared : ℕ → Text → List Text → W → PostgresResult × W)
    (prepare_on : ℕ → PostgresStatement → W → Bool × W) (prepared : W → ℕ → Text → Option Text)
    (answers : Text → List Text → W → PostgresResult × W) (accepts : Text → Bool)
    (laws : IsServer exec_prepared prepare_on prepared answers accepts) where
  fall_back-known :
      (c : ℕ) (st : PostgresStatement) (q : Text) (vs : List Text) (w : W)
      → prepared w c st.name ≡ some q
      → fall_back exec_prepared prepare_on c st vs (answers q vs w) ≡ answers q vs w
  fall_back-known c st q vs w h =
      let (r, w') = answers q vs w in
      elim (Bool-cases (answers q vs w).0.fatal_error) [
        | inl e ↦ rw (e, laws.refuses c st q (answers q vs w).1 (laws.keeps c st.name q vs w ∙ h))
        | inr e ↦ rw e
      ]

  -- On a connection where the name of a statement is prepared, a query runs what was prepared under
  -- that name, which need not be the statement's own query, and gives the connection back.
  pub query_with_fallback_known :
      (st : PostgresStatement) (vs : List Text) (p : Postgres W) (c : ℕ) (pool : Pool) (q : Text)
      → get_context p.pool ≡ got c pool
      → prepared p.server c st.name ≡ some q
      → query_with_fallback exec_prepared prepare_on st vs p
        ≡ ran
            (answers q vs p.server).0
            (record p { pool = release_context c pool; server = (answers q vs p.server).1 })
  unfolding query_with_fallback
  query_with_fallback_known st vs p c pool q took h =
      rw took (rw (laws.runs c st.name q vs p.server h) (rw (fall_back-known c st q vs p.server h)))

  -- On a connection where the name of a statement is not prepared, a query that can be prepared is
  -- prepared and run, and the connection is given back, on which the name now stands for the query.
  pub query_with_fallback_unknown :
      (st : PostgresStatement) (vs : List Text) (p : Postgres W) (c : ℕ) (pool : Pool)
      → get_context p.pool ≡ got c pool
      → prepared p.server c st.name ≡ none
      → accepts st.query_text ≡ true
      → (w : W) × (query_with_fallback exec_prepared prepare_on st vs p
          ≡ ran
              (answers st.query_text vs w).0
              (record p { pool = release_context c pool; server = (answers st.query_text vs w).1 }))
        × (prepared (answers st.query_text vs w).1 c st.name ≡ some st.query_text)
  unfolding query_with_fallback
  query_with_fallback_unknown st vs p c pool took h ok =
      let (r, missed, fatal) = laws.misses c st.name vs p.server h in
      let (w, done, known) = laws.prepares c st p.server h ok in
      (
        w,
        rw took
            (rw missed (rw fatal (rw done (rw (laws.runs c st.name st.query_text vs w known))))),
        laws.keeps c st.name st.query_text vs w ∙ known,
      )

  -- On a connection that has run the query for a user, `add_user` runs that query again, with the name
  -- and the hash as its parameters, and not the insertion: both statements have the same name.
  pub add_user_selects :
      (made p : Postgres W) (user : User) (c : ℕ) (pool : Pool)
      → get_context p.pool ≡ got c pool
      → prepared p.server c (make_user_postgres made).get_user_statement.name ≡ some select_user
      → let answer = answers select_user (user.username ∷ user.hashed ∷ []) p.server in
        add_user_impl exec_prepared prepare_on (make_user_postgres made) user p
        ≡ added_user exec_prepared prepare_on
            (checked answer.0)
            (record p { pool = release_context c pool; server = answer.1 })
  unfolding add_user_impl query make_user_postgres prepare
  add_user_selects made p user c pool took h = rw (
      query_with_fallback_known (make_user_postgres made).add_user_statement
        (user.username ∷ user.hashed ∷ []) p c pool select_user took h)
