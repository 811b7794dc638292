-- ===== src/Startup/Globals.antt =====
-- db/core/singleton.cpp and interfaces/store/singleton.cpp: the global objects, which a second call of
-- init_store or init_postgres replaces and which clear_store and clear_postgres destroy.
use clean_architecture_cpp.Base.{
  ℕ, ◌≡◌, refl, ap, ◌∙◌, sym, Option, none, some, List, [], ◌∷◌, ◌++◌, append_assoc, append-nil,
  map, length, Text,
}
use clean_architecture_cpp.Base.Integer.{ℤ}
use clean_architecture_cpp.Entities.Log.{Log}
use clean_architecture_cpp.Pool.{Pool, Attempt, connected, Built, build_store}
use clean_architecture_cpp.Pool.Building.{build_store_connects}
use clean_architecture_cpp.Startup.{PostgresConfig, StoreConfig, init_postgres, init_store}

-- What the destructor of a global object frees, if there is one.
unfoldable pub released : Option Built → List ℕ
released none = []
released (some b) = b.pool.idle

-- A global pointer, and the connections that were freed by destructors so far.
pub record Global : Type 0 where
  pub object : Option Built
  pub freed : List ℕ

-- An assignment of a new object, and what is returned of it.
abbrev pub replace : Built → Global → Option Log × Global
replace b g = (b.error, record { object = some b; freed = g.freed ++ released g.object })

-- `db::init_postgres`
unfoldable pub init_global_postgres :
    (Text → ℕ → Attempt) → PostgresConfig → Global → Option Log × Global
unfolding init_postgres released
init_global_postgres pg_connect config g = replace (init_postgres pg_connect config) g

-- `interface::init_store`
unfoldable pub init_global_store :
    (Text → ℤ → ℕ → Attempt) → StoreConfig → Global → Option Log × Global
unfolding init_store released
init_global_store redis_connect config g = replace (init_store redis_connect config) g

-- `reset` on a pointer that is not null.
unfoldable pub clear : Global → Global
unfolding released
clear g = elim g.object [
  | none ↦ g
  | some b ↦ record { object = none; freed = g.freed ++ released (some b) }
]

abbrev pub clear_postgres : Global → Global
clear_postgres g = clear g

abbrev pub clear_store : Global → Global
clear_store g = clear g

abbrev pub get_postgres : Global → Option Built
get_postgres g = g.object

abbrev pub get_store : Global → Option Built
get_store g = g.object

-- A call of a program that makes and clears the store, where every attempt connects.
pub data Change : Type 0 where
  makes : List ℕ → Change
  clears : Change

abbrev pub change : Change → Global → Global
change (makes ctxs) g = (replace (build_store (length ctxs) [] (map connected ctxs)) g).1
change clears g = clear_store g

abbrev pub changes : List Change → Global → Global
changes [] g = g
changes (c ∷ cs) g = changes cs (change c g)

abbrev pub all_made : List Change → List ℕ
all_made [] = []
all_made (makes ctxs ∷ cs) = ctxs ++ all_made cs
all_made (clears ∷ cs) = all_made cs

abbrev held : Global → List ℕ
held g = g.freed ++ released g.object

clear-held_of :
    (freed : List ℕ) (o : Option Built)
    → let g : Global = record { object = o; freed = freed } in held (clear g) ≡ held g
unfolding clear released
clear-held_of freed none = refl
clear-held_of freed (some b) = append-nil (freed ++ b.pool.idle)

clear-held : (g : Global) → held (clear g) ≡ held g
clear-held g = clear-held_of g.freed g.object

changes-held : (cs : List Change) (g : Global) → held (changes cs g) ≡ held g ++ all_made cs
unfolding released
changes-held [] g = sym (append-nil (held g))
changes-held (makes ctxs ∷ cs) g =
    let built = ap (λ (p : Pool). p.idle) (build_store_connects ctxs).1 in
    changes-held cs (change (makes ctxs) g)
    ∙ (rw built (append_assoc (g.freed ++ released g.object) ctxs (all_made cs)))
changes-held (clears ∷ cs) g =
    changes-held cs (clear g) ∙ ap (λ xs. xs ++ all_made cs) (clear-held g)

-- Whatever stores are made, each of connections that all succeed, and cleared in any order, starting
-- with none: what the destructors have freed and then what the last object holds are all connections
-- that were ever made, each once and in the order they were made.
pub changes-freed :
    (cs : List Change)
    → let g = changes cs (record { object = none; freed = [] }) in
      g.freed ++ released g.object ≡ all_made cs
unfolding released
changes-freed cs = changes-held cs (record { object = none; freed = [] })
