-- ===== src/Pool.antt =====
-- src/interfaces/store/redis.cpp and src/db/core/pg.cpp: the pool of connections to a server, a deque
-- under a counting semaphore, which both keep in the same way. A connection is a number. Taking a
-- connection is one step here; the deque has no lock in the source, and Pool.Racing has its calls and
-- those of the semaphore one by one.
pub mod Sharing
pub mod Building
pub mod Racing
use clean_architecture_cpp.Base.{
  ℕ, suc, ◌+◌, ◌-◌, ◌==◌, if◌then◌else◌, List, [], ◌∷◌, ◌++◌, push_back, Option, none, some, Text,
  codes, concat,
}
use clean_architecture_cpp.Entities.Log.{Log, empty_log}

pub record Pool : Type 0 where
  pub idle : List ℕ
  pub permits : ℕ

-- `undefined` is a read of the front of an empty deque.
pub data Got : Type 0 where
  blocked undefined : Got
  got : ℕ → Pool → Got

abbrev take_front : List ℕ → ℕ → Got
take_front [] permits = undefined
take_front (ctx ∷ rest) permits = got ctx (record { idle = rest; permits = permits })

-- `RedisStore::get_context`, `Postgres::get_client`
unfoldable pub get_context : Pool → Got
get_context p = if p.permits == 0 then blocked else take_front p.idle (p.permits - 1)

-- `RedisStore::release_context`, `Postgres::release_client`
unfoldable pub release_context : ℕ → Pool → Pool
release_context ctx p = record p { idle = push_back p.idle ctx; permits = p.permits + 1 }

-- What an attempt to connect gives: a connection, a null pointer, or a connection with an error.
pub data Attempt : Type 0 where
  connected : ℕ → Attempt
  null : Attempt
  failed : ℕ → Text → Attempt

-- A store or database after its constructor: its pool, its error, and what has been freed so far.
pub record Built : Type 0 where
  pub pool : Pool
  pub error : Option Log
  pub freed : List ℕ

abbrev give_up : ℕ → List ℕ → List ℕ → Text → Text → Text → Built
give_up num_pool made own msg file function = record {
  pool = record { idle = made; permits = num_pool };
  error = some (record empty_log { msg = msg; file = file; function = function });
  freed = made ++ own;
}

-- The loop of `RedisStore::RedisStore` over its attempts to connect.
unfoldable pub build_store : ℕ → List ℕ → List Attempt → Built
build_store num_pool made [] = record {
  pool = record { idle = made; permits = num_pool };
  error = none;
  freed = [];
}
build_store num_pool made (connected ctx ∷ attempts) =
    build_store num_pool (push_back made ctx) attempts
build_store num_pool made (null ∷ attempts) =
    give_up num_pool made [] (codes "Can't allocate redis context")
      (codes "interfaces/store/redis.cpp") (codes "RedisStore::RedisStore")
build_store num_pool made (failed ctx errstr ∷ attempts) =
    give_up num_pool made (ctx ∷ [])
      (concat (codes "Redis could not be initialized (" ∷ errstr ∷ codes ")" ∷ []))
      (codes "interfaces/store/redis.cpp") (codes "RedisStore::RedisStore")

-- The loop of `Postgres::Postgres`.
unfoldable pub build_database : ℕ → List ℕ → List Attempt → Built
build_database num_pool made [] = record {
  pool = record { idle = made; permits = num_pool };
  error = none;
  freed = [];
}
build_database num_pool made (connected client ∷ attempts) =
    build_database num_pool (push_back made client) attempts
build_database num_pool made (null ∷ attempts) =
    give_up num_pool made []
      (codes "Postgres could not be initialize (connection pointer is NULL\n)")
      (codes "db/core/pg.cpp") (codes "Postgres::Postgres")
build_database num_pool made (failed client errstr ∷ attempts) =
    give_up num_pool made (client ∷ [])
      (concat (codes "Postgres could not be initialize (" ∷ errstr ∷ codes ")" ∷ []))
      (codes "db/core/pg.cpp") (codes "Postgres::Postgres")

-- The destructors free what stands in the pool: all that is freed by then.
unfoldable pub destroy : Built → List ℕ
destroy b = b.freed ++ b.pool.idle
