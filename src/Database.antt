-- ===== src/Database.antt =====
-- src/db/core/pg.cpp and src/db/user/pg.cpp: queries on a pool of connections to Postgres, and the
-- table of users. The server and libpq are a section's parameters: what a prepared statement answers
-- on a connection, and whether a statement could be prepared.
pub mod Statements
pub mod Logins
pub mod Cells
pub mod Answering
use clean_architecture_cpp.Base.{
  zero, suc, ℕ, Bool, true, false, Option, none, some, List, [], ◌∷◌, Text, codes, is_empty, length,
  if◌then◌else◌,
}
use clean_architecture_cpp.Base.Decimal.{to_string}
use clean_architecture_cpp.Entities.Log.{Log, empty_log, Expected, value, unexpected}
use clean_architecture_cpp.Entities.User.{User, make_user}
use clean_architecture_cpp.Pool.{Pool, Got, blocked, undefined, got, get_context, release_context}
use clean_architecture_cpp.Store.{Run, ran, waits, crashes, ◌>>=◌}
use clean_architecture_cpp.Store.Redis.{c_string}
use clean_architecture_cpp.UseCases.{IUserDb}

-- What libpq tells of a result: whether it is a fatal error, the message, the name of the constraint,
-- and the cells.
pub record PostgresResult : Type 0 where
  pub fatal_error : Bool
  pub message : Text
  pub constraint_name : Option Text
  pub rows : List (List Text)

pub record PostgresStatement : Type 0 where
  pub name : Text
  pub query_text : Text
  pub param_types : List ℕ
  pub num_params : ℕ

pub record Postgres (W : Type 0) : Type 0 where
  pub pool : Pool
  pub statement_count : ℕ
  pub server : W

unfoldable pub get_name : {W : Type 0} → Postgres W → Text
get_name p = to_string p.statement_count

-- `Postgres::prepare`, which sends nothing yet.
unfoldable pub prepare : {W : Type 0} → Text → ℕ → List ℕ → Postgres W → PostgresStatement
unfolding get_name
prepare query_text num_params param_types p = record {
  name = get_name p;
  query_text = query_text;
  param_types = param_types;
  num_params = num_params;
}

-- `UserPostgres`, as its constructor makes it.
pub record UserPostgres : Type 0 where
  pub get_user_statement : PostgresStatement
  pub add_user_statement : PostgresStatement

abbrev pub select_user : Text
select_user = codes "SELECT id, username, password\nFROM   users\nWHERE  username=$1\nLIMIT  1;"

abbrev pub insert_user : Text
insert_user = codes "INSERT INTO users (username, password)\nVALUES ($1, $2)\nRETURNING id;"

unfoldable pub make_user_postgres : {W : Type 0} → Postgres W → UserPostgres
unfolding prepare
make_user_postgres p = record {
  get_user_statement = prepare select_user 1 (0 ∷ []) p;
  add_user_statement = prepare insert_user 2 (0 ∷ 0 ∷ []) p;
}

-- `get_cell<char*>`, or `none` for the null pointer of a cell that is not there.
abbrev pub cell_of : List Text → ℕ → Option Text
cell_of [] j = none
cell_of (c ∷ cells) zero = some c
cell_of (c ∷ cells) (suc j) = cell_of cells j

unfoldable pub get_cell : PostgresResult → ℕ → Option Text
get_cell r j = elim r.rows [ [] ↦ none | row ∷ rows ↦ cell_of row j ]

-- The log of a result with a message.
abbrev pub query_log : PostgresResult → Log
query_log r = record empty_log {
  msg = r.message;
  file = codes "db/core/pg.hpp";
  function = codes "Postgres::query";
  db_contraint = elim r.constraint_name [ none ↦ [] | some name ↦ name ];
}

-- `Postgres::query` on a result.
unfoldable pub checked : PostgresResult → Expected PostgresResult
checked r = if is_empty r.message then value r else unexpected (query_log r)

module _ {W : Type 0} (exec_prepared : ℕ → Text → List Text → W → PostgresResult × W)
    (prepare_on : ℕ → PostgresStatement → W → Bool × W) where
  -- The fallback of `query_with_fallback`, on a result.
  abbrev pub fall_back : ℕ → PostgresStatement → List Text → PostgresResult × W → PostgresResult × W
  fall_back client statement values (result, w) =
      if result.fatal_error
      then (let (prepared, w') = prepare_on client statement w in
          if prepared then exec_prepared client statement.name values w' else (result, w'))
      else (result, w)

  abbrev run_on : PostgresStatement → List Text → Postgres W → Got → Run PostgresResult (Postgres W)
  run_on statement values p blocked = waits
  run_on statement values p undefined = crashes
  run_on statement values p (got client pool) =
      let (result, w) =
        fall_back client statement values (exec_prepared client statement.name values p.server) in
      ran result (record p { pool = release_context client pool; server = w })

  unfoldable pub query_with_fallback :
      PostgresStatement → List Text → Postgres W → Run PostgresResult (Postgres W)
  query_with_fallback statement values p = run_on statement values p (get_context p.pool)

  unfoldable pub query :
      PostgresStatement → List Text → Postgres W → Run (Expected PostgresResult) (Postgres W)
  query statement values p =
      query_with_fallback statement values p >>= λ result p'. ran (checked result) p'

  abbrev pub in_users : Log → Log
  in_users log = record log { db = codes "users" }

  abbrev user_not_found : Expected User
  user_not_found = unexpected (record empty_log {
    msg = codes "User not found";
    file = codes "db/user/pg.cpp";
    function = codes "get_user_by_username_impl";
    db = codes "users";
  })

  abbrev made_user :
      Text → Option Text → Option Text → Postgres W → Run (Expected User) (Postgres W)
  made_user username (some id) (some hashed) p =
      ran (make_user (c_string id) username (c_string hashed)).0 p
  made_user username id hashed p = crashes

  unfoldable pub found_user :
      Text → Expected PostgresResult → Postgres W → Run (Expected User) (Postgres W)
  found_user username (unexpected log) p = ran (unexpected (in_users log)) p
  found_user username (value r) p =
      if is_empty r.rows
      then ran user_not_found p
      else made_user username (get_cell r 0) (get_cell r 2) p

  abbrev added_id : Option Text → Postgres W → Run (Expected Text) (Postgres W)
  added_id none p = crashes
  added_id (some id) p = ran (value (c_string id)) p

  unfoldable pub added_user :
      Expected PostgresResult → Postgres W → Run (Expected Text) (Postgres W)
  added_user (unexpected log) p = ran (unexpected (in_users log)) p
  added_user (value r) p = added_id (get_cell r 0) p

  unfoldable pub get_user_by_username_impl :
      UserPostgres → Text → Postgres W → Run (Expected User) (Postgres W)
  get_user_by_username_impl u username p =
      query u.get_user_statement (username ∷ []) p >>= found_user username

  unfoldable pub add_user_impl : UserPostgres → User → Postgres W → Run (Expected Text) (Postgres W)
  add_user_impl u user p =
      query u.add_user_statement (user.username ∷ user.hashed ∷ []) p >>= added_user

  -- The database of the use cases.
  abbrev pub user_db : UserPostgres → IUserDb (Postgres W)
  user_db u = record {
    get_user_by_username = get_user_by_username_impl u;
    add_user = add_user_impl u;
  }
