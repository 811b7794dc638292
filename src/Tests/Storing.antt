-- ===== src/Tests/Storing.antt =====
-- Runs of the theorems on the pools and on redis.cpp, with a list of keys and values for the server.
use clean_architecture_cpp.Pool.Racing.{Threads, Calls, at_start, holds, outside, front_twice}
use clean_architecture_cpp.Base.{
  ◌==◌, ◌||◌, ret, Bool-cases, inl, inr, text_eq→eq, subst, ◌∙◌, false, ℕ, ◌≡◌, ◌≢◌, ◌≤◌, refl,
  if◌then◌else◌, Option, none, some, List, [], ◌∷◌, ◌++◌, Text, codes, text_eq, map, arith, ap,
}
use clean_architecture_cpp.Base.Integer.{pos, negsuc}
use clean_architecture_cpp.Store.Redis.Typed.{ReadsBack, get-set_typed}
use clean_architecture_cpp.Pool.{connected, failed, build_store, destroy, get_context, undefined}
use clean_architecture_cpp.Pool.Sharing.{
  Shared, Step, takes, here, next, all, IsShared, Reach-IsShared,
}
use clean_architecture_cpp.Pool.Building.{times_freed, build_store_frees_twice}
use clean_architecture_cpp.Store.{Command, get_key, set_key, exists_key, del_key, IsStore}
use clean_architecture_cpp.Store.Redis.{
  get_int32, set_int, get_int64, set_int64, get_float, set_float, get_double, set_double, get_bool,
  set_bool, get_string, set_string, RedisStore, Reply, other, redis_store,
}
use clean_architecture_cpp.Store.Redis.Laws.{
  IsServer, reply_of, one_if, Ready, value_of, redis_store-IsStore,
}
use mathlib.Core.List.{Nodup, Pairwise, not-mem-nil}
use mathlib.Core.List.Perm

abbrev one_idle : Shared
one_idle = record { pool = record { idle = 1 ∷ []; permits = 1 }; held = [] }

abbrev one_held : Shared
one_held = record { pool = record { idle = []; permits = 0 }; held = 1 ∷ [] }

takes_one : Step one_idle one_held
unfolding get_context
takes_one = takes one_idle 1 (record { idle = []; permits = 0 }) refl

one-Nodup : Nodup {A = ℕ} (1 ∷ [])
one-Nodup = Pairwise.cons (λ a m e. not-mem-nil m) Pairwise.nil

Reach-IsShared_example :
    Nodup (all one_held) × IsShared (1 ∷ []) one_held × (get_context one_held.pool ≢ undefined)
Reach-IsShared_example =
    Reach-IsShared {s = one_idle} one-Nodup (record { counted = refl; owned = Perm.refl (1 ∷ []) })
      (next here takes_one)

build_store_frees_twice_example :
    let b = build_store 2 [] (map connected ([] ++ 1 ∷ []) ++ failed 2 (codes "refused") ∷ []) in
    (b.error ≢ none) × (2 ≤ times_freed 1 (destroy b))
build_store_frees_twice_example = build_store_frees_twice 2 [] [] 1 2 (codes "refused") []

abbrev pub Entries : Type 0
Entries = List (Text × Text)

abbrev pub lookup : Entries → Text → Option Text
lookup [] k = none
lookup ((j, v) ∷ entries) k = if text_eq j k then some v else lookup entries k

abbrev pub insert : Text → Text → Entries → Entries
insert k v entries = (k, v) ∷ entries

abbrev pub remove : Text → Entries → Entries
remove k [] = []
remove k ((j, v) ∷ entries) = if text_eq j k then remove k entries else (j, v) ∷ remove k entries

abbrev server : ℕ → Command → Entries → Option Reply × Entries
server ctx (get_key k) w = (some (reply_of (lookup w k)), w)
server ctx (set_key k v) w = (some other, insert k v w)
server ctx (exists_key k) w = (some (one_if (lookup w k)), w)
server ctx (del_key k) w = (some (one_if (lookup w k)), remove k w)

pub lookup-remove :
    (k j : Text) (w : Entries) → lookup (remove k w) j ≡ (if text_eq k j then none else lookup w j)
lookup-remove k j [] = ground arith
lookup-remove k j ((i, v) ∷ w) = elim (Bool-cases (text_eq i k)) [
  | inl e ↦ rw (e, lookup-remove k j w, text_eq→eq i k e) (ground arith)
  | inr e ↦ elim (Bool-cases (text_eq k j)) [
    | inl f ↦
        rw (e, f, subst (λ x. text_eq i x ≡ false) (text_eq→eq k j f) e)
          (lookup-remove k j w ∙ rw f)
    | inr f ↦ rw (e, f) (ap (λ o. if text_eq i j then some v else o) (lookup-remove k j w ∙ rw f))
  ]
]

server-IsServer : IsServer server lookup insert remove
server-IsServer = record {
  gets = λ ctx k w. refl;
  sets = λ ctx k v w. refl;
  tells = λ ctx k w. refl;
  erases = λ ctx k w. refl;
  view_put = λ k v j w. refl;
  view_erase = lookup-remove;
}

redis_store-IsStore_example :
    IsStore
      (redis_store server)
      (Ready server lookup insert remove server-IsServer)
      (value_of server lookup insert remove server-IsServer)
redis_store-IsStore_example = redis_store-IsStore server lookup insert remove server-IsServer

abbrev ready_store : RedisStore Entries
ready_store = record { pool = record { idle = 1 ∷ []; permits = 1 }; server = [] }

-- A floating-point number that is its own text.
get-set_typed_example :
    let s = server in
    let k = codes "n" in
    ReadsBack s lookup insert remove server-IsServer
      (set_int s k (negsuc 4))
      (get_int32 s k)
      (negsuc 4)
      ready_store
    × ReadsBack s lookup insert remove server-IsServer
        (set_int64 s k (pos 5))
        (get_int64 s k)
        (pos 5)
        ready_store
    × ReadsBack s lookup insert remove server-IsServer
        (set_float s (λ t. t) k (codes "0.5"))
        (get_float s ret k)
        (codes "0.5")
        ready_store
    × ReadsBack s lookup insert remove server-IsServer
        (set_double s (λ t. t) k (codes "2.5"))
        (get_double s ret k)
        (codes "2.5")
        ready_store
    × ReadsBack s lookup insert remove server-IsServer
        (set_bool s k false)
        (get_bool s k)
        false
        ready_store
    × ReadsBack s lookup insert remove server-IsServer
        (set_string s k (codes "a"))
        (get_string s k)
        (codes "a")
        ready_store
get-set_typed_example =
    get-set_typed server lookup insert remove server-IsServer ret ret (λ t. t) (λ t. t) (codes "n")
      ready_store (negsuc 4) (pos 5) (codes "0.5") (codes "2.5") false (codes "a")
      (record { counted = refl; some_idle = omega arith }) (refl, tt) (omega arith) (omega arith)
      (refl, (refl, (refl, tt))) refl (refl, (refl, (refl, tt))) refl (refl, tt)

front_twice_example :
    (s : Threads) × Calls (at_start (1 ∷ 2 ∷ []) 2) s
    × (s.pool ≡ record { idle = []; permits = 0 })
    × ((t : ℕ) → s.phase t ≡ (if (t == 0) || (t == 1) then holds 1 else outside))
front_twice_example = front_twice 1 2 0 []
