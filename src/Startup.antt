-- ===== src/Startup.antt =====
-- src/main.cpp with what it calls to start up: db/core/singleton.cpp, interfaces/store/singleton.cpp
-- and the constructor and `run` of wrappers/http/server.cpp. What redisConnect and PQconnectdb give,
-- how many threads the machine has, and whether asio can listen are parameters.
pub mod Numbers
pub mod Pools
pub mod Settings
pub mod Globals
use clean_architecture_cpp.Base.{
  ℕ, suc, zero, ◌+◌, ◌==◌, ltb, Bool, true, false, if◌then◌else◌, Option, none, some, List, [], ◌∷◌,
  ◌++◌, Text, codes, concat, Throws, ret, ◌>>=◌,
}
use clean_architecture_cpp.Base.Integer.{ℤ}
use clean_architecture_cpp.Entities.Log.{Log, to_string}
use clean_architecture_cpp.Pool.{Attempt, Built, build_store, build_database}
use clean_architecture_cpp.Startup.Numbers.{strtoul, strtol, to_uint, to_int}
use clean_architecture_cpp.Utils.Env.{Environ, init_env, get_env}
use clean_architecture_cpp.Store.Redis.{c_string}

pub record PostgresConfig : Type 0 where
  pub host : Text
  pub port : Text
  pub user : Text
  pub password : Text
  pub db : Text
  pub pool : ℕ

pub record StoreConfig : Type 0 where
  pub host : Text
  pub port : ℤ
  pub pool : ℕ

-- `static_cast<uint>(std::strtoul(get_env(key, def).c_str(), nullptr, 10))`
unfoldable pub uint_of : Text → Text → Environ → ℕ
unfolding get_env strtoul to_uint
uint_of key def env = to_uint (strtoul (c_string (get_env key def env)))

unfoldable pub postgres_config : Environ → PostgresConfig
unfolding get_env
postgres_config env = record {
  host = get_env (codes "PG_HOST") (codes "127.0.0.1") env;
  port = get_env (codes "PG_PORT") (codes "5432") env;
  user = get_env (codes "PG_USER") (codes "postgres") env;
  password = get_env (codes "PG_PASS") (codes "password") env;
  db = get_env (codes "PG_DB") (codes "postgres") env;
  pool = uint_of (codes "PG_POOL") (codes "1") env;
}

unfoldable pub store_config : Environ → StoreConfig
unfolding get_env
store_config env = record {
  host = get_env (codes "REDIS_HOST") (codes "127.0.0.1") env;
  port = to_int (strtol (c_string (get_env (codes "REDIS_PORT") (codes "6379") env)));
  pool = uint_of (codes "REDIS_POOL") (codes "1") env;
}

-- The attempts of a constructor's loop, of which `i` were made.
unfoldable pub attempts : (ℕ → Attempt) → ℕ → ℕ → List Attempt
attempts connect i zero = []
attempts connect i (suc n) = connect i ∷ attempts connect (suc i) n

-- The connection string of `Postgres::Postgres`.
unfoldable pub connection_string : PostgresConfig → Text
connection_string config = concat (
    codes "host="
    ∷ config.host
    ∷ codes " port="
    ∷ config.port
    ∷ codes " dbname="
    ∷ config.db
    ∷ codes " user="
    ∷ config.user
    ∷ codes " password="
    ∷ config.password
    ∷ [])

-- The threads that `run` of the server makes or, for one, the thread it runs on.
unfoldable pub threads_of : ℕ → ℕ → ℕ
threads_of hardware num_threads = if ltb hardware num_threads then hardware else num_threads

-- How `main` goes on: it logs a fatal error and returns -1, it prints what the server's constructor
-- threw, or it logs a message and serves, with so many threads.
pub data Startup : Type 0 where
  fatal exception : Text → Startup
  running : Built → Built → Text → ℕ → Startup

-- `db::init_postgres`, with the object it keeps.
unfoldable pub init_postgres : (Text → ℕ → Attempt) → PostgresConfig → Built
unfolding connection_string attempts build_database
init_postgres pg_connect config =
    build_database config.pool []
      (attempts (pg_connect (c_string (connection_string config))) 0 config.pool)

-- `interface::init_store`, with the object it keeps.
unfoldable pub init_store : (Text → ℤ → ℕ → Attempt) → StoreConfig → Built
unfolding attempts build_store
init_store redis_connect config =
    build_store config.pool []
      (attempts (redis_connect (c_string config.host) config.port) 0 config.pool)

module _ (pg_connect : Text → ℕ → Attempt) (redis_connect : Text → ℤ → ℕ → Attempt)
    (listen : Text → Text → Option Text) (hardware : ℕ) where
  abbrev pub serving : Built → Built → Environ → Option Text → Startup
  serving database store env (some what) = exception what
  serving database store env none =
      running database store
        (concat (
          codes "Running server http://"
          ∷ get_env (codes "HOST") (codes "127.0.0.1") env
          ∷ codes ":"
          ∷ get_env (codes "PORT") (codes "5000") env
          ∷ []))
        (threads_of hardware (uint_of (codes "POOL") (codes "1") env))

  abbrev pub with_store : Built → Environ → Built → Option Log → Startup
  with_store database env store (some err) = fatal (to_string err)
  with_store database env store none = serving database store env (
      listen (get_env (codes "HOST") (codes "127.0.0.1") env)
        (get_env (codes "PORT") (codes "5000") env))

  abbrev pub with_database : Environ → Built → Option Log → Startup
  with_database env database (some err) = fatal (to_string err)
  with_database env database none =
      let store = init_store redis_connect (store_config env) in
      with_store database env store store.error

  unfoldable pub start_up : Environ → Startup
  unfolding init_postgres init_store postgres_config store_config threads_of uint_of
  start_up env =
      let database = init_postgres pg_connect (postgres_config env) in
      with_database env database database.error

  -- `main`, on what the file ../.env holds.
  unfoldable pub main : Option Text → Environ → Throws Startup
  unfolding init_env start_up
  main file env = init_env file env >>= λ env'. ret (start_up env')
