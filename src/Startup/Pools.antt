-- ===== src/Startup/Pools.antt =====
-- main.cpp: what it comes to, and the pools that it starts to serve with.
use clean_architecture_cpp.Base.{
  ℕ, ◌≤◌, ◌≡◌, refl, ◌==◌, false, ◌⊎◌, Option, none, some, ◌∷◌, length, Text, codes,
}
use clean_architecture_cpp.Base.Decimal.{is_decimal, read_digits}
use clean_architecture_cpp.Base.Integer.{ℤ, is_space, skip_space, leading_digits}
use clean_architecture_cpp.Entities.Log.{Log, to_string}
use clean_architecture_cpp.Pool.{Pool, Attempt, build_database, blocked, get_context}
use clean_architecture_cpp.Store.Redis.{c_string}
use clean_architecture_cpp.Startup.{
  uint_of, postgres_config, store_config, attempts, Startup, fatal, exception, running,
  init_postgres, init_store,
}
use clean_architecture_cpp.Startup.Numbers.{strtoul, to_uint}
use clean_architecture_cpp.Utils.Env.{Environ, get_env}

-- A pool under `n` permits that holds a connection for each.
abbrev pub IsFull : ℕ → Pool → Type 0
IsFull n p = (length p.idle ≡ n) × (p.permits ≡ n)

module _ (pg_connect : Text → ℕ → Attempt) (redis_connect : Text → ℤ → ℕ → Attempt)
    (listen : Text → Text → Option Text) (hardware : ℕ) where
  -- What a decision tells of the environment.
  abbrev pub Decides : Environ → Startup → Type 0
  Decides env (fatal text) =
      (log : Log) × (text ≡ to_string log)
      × (((init_postgres pg_connect (postgres_config env)).error ≡ some log)
          ⊎ ((init_store redis_connect (store_config env)).error ≡ some log))
  Decides env (exception what) =
      listen (get_env (codes "HOST") (codes "127.0.0.1") env)
        (get_env (codes "PORT") (codes "5000") env)
      ≡ some what
  Decides env (running database store message threads) =
      IsFull (uint_of (codes "PG_POOL") (codes "1") env) database.pool
      × IsFull (uint_of (codes "REDIS_POOL") (codes "1") env) store.pool
      × (threads ≤ hardware)
      × (threads ≤ uint_of (codes "POOL") (codes "1") env)

-- A setting that does not begin with white space, a sign or a digit stands for 0.
uint_of_word :
    (key def : Text) (env : Environ) (c : ℕ) (s : Text)
    → c_string (get_env key def env) ≡ c ∷ s
    → is_space c ≡ false
    → (c == b'-') ≡ false
    → (c == b'+') ≡ false
    → is_decimal c ≡ false
    → uint_of key def env ≡ 0
unfolding uint_of strtoul to_uint skip_space leading_digits read_digits
uint_of_word key def env c s e sp m p d = rw (e, sp, m, p, d) refl

-- Where PG_POOL is set to a text that does not begin with white space, a sign, a digit or a zero
-- byte, the database is made without an error, and every query waits for ever for a connection.
pub init_postgres_waits :
    (pg_connect : Text → ℕ → Attempt) (env : Environ) (c : ℕ) (s : Text)
    → c_string (get_env (codes "PG_POOL") (codes "1") env) ≡ c ∷ s
    → is_space c ≡ false
    → (c == b'-') ≡ false
    → (c == b'+') ≡ false
    → is_decimal c ≡ false
    → let database = init_postgres pg_connect (postgres_config env) in
      (database.error ≡ none) × (get_context database.pool ≡ blocked)
unfolding init_postgres postgres_config attempts build_database get_context
init_postgres_waits pg_connect env c s e sp m p d =
    rw (uint_of_word (codes "PG_POOL") (codes "1") env c s e sp m p d) (refl, refl)
