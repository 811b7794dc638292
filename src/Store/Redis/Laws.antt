-- ===== src/Store/Redis/Laws.antt =====
-- redis.cpp against a server that keeps a value for each key.
use clean_architecture_cpp.Base.{
  ℕ, ◌-◌, ◌<◌, ◌≡◌, refl, ◌∙◌, ap, true, if◌then◌else◌, Option, none, some, List, [], ◌∷◌, Text,
  length, length-append, text_eq, Lacks, arith,
}
use clean_architecture_cpp.Base.Integer.{pos}
use clean_architecture_cpp.Entities.Log.{value}
use clean_architecture_cpp.Pool.{Pool, got, get_context, release_context}
use clean_architecture_cpp.Store.{
  Gives, IsStore, is_some, Run, ran, Command, get_key, set_key, exists_key, del_key,
}
use clean_architecture_cpp.Store.Redis.{
  Reply, string, nil, integer, other, RedisStore, redis_store, c_string, byte_array_of, is_set,
  is_counted, perform, get_byte_array, set_byte_array, exists, del,
}

-- The answer to GET.
abbrev pub reply_of : Option Text → Reply
reply_of none = nil
reply_of (some s) = string s

abbrev pub one_if : Option Text → Reply
one_if none = integer (pos 0)
one_if (some s) = integer (pos 1)

-- What the Redis documentation says of GET, SET, EXISTS and DEL, on a server that can be reached.
-- `view` is the value of each key.
pub record IsServer {W : Type 0} (command : ℕ → Command → W → Option Reply × W)
    (view : W → Text → Option Text) (put : Text → Text → W → W) (erase : Text → W → W)
    : Type 0 where
  pub gets :
      (ctx : ℕ) (k : Text) (w : W) → command ctx (get_key k) w ≡ (some (reply_of (view w k)), w)
  pub sets : (ctx : ℕ) (k v : Text) (w : W) → command ctx (set_key k v) w ≡ (some other, put k v w)
  pub tells :
      (ctx : ℕ) (k : Text) (w : W) → command ctx (exists_key k) w ≡ (some (one_if (view w k)), w)
  pub erases :
      (ctx : ℕ) (k : Text) (w : W)
      → command ctx (del_key k) w ≡ (some (one_if (view w k)), erase k w)
  pub view_put :
      (k v j : Text) (w : W) → view (put k v w) j ≡ (if text_eq k j then some v else view w j)
  pub view_erase :
      (k j : Text) (w : W) → view (erase k w) j ≡ (if text_eq k j then none else view w j)

-- The semaphore counts the idle connections, and there is one.
pub record IsReady (p : Pool) : Type 0 where
  pub counted : p.permits ≡ length p.idle
  pub some_idle : 0 < p.permits

-- What an operation that is ready returns: a value, the server's new state, and a store that is
-- ready again.
pub record Returns {A W : Type 0} (result : Run A (RedisStore W)) (a : A) (w : W) : Type 0 where
  pub pool : Pool
  pub same : result ≡ ran a (record { pool = pool; server = w })
  pub ready : IsReady pool

IsReady-front :
    (idle : List ℕ) (n : ℕ)
    → n ≡ length idle
    → 0 < n
    → (ctx : ℕ) × (p' : Pool) × (get_context (record { idle = idle; permits = n }) ≡ got ctx p')
      × IsReady (release_context ctx p')
unfolding get_context release_context
IsReady-front [] n e h = absurd (omega arith)
IsReady-front (c ∷ idle) n e h = (
  c,
  record { idle = idle; permits = n - 1 },
  ground arith,
  record { counted = omega (arith, length-append idle (c ∷ [])); some_idle = omega arith },
)

pub IsReady-got :
    (p : Pool)
    → IsReady p
    → (ctx : ℕ) × (p' : Pool) × (get_context p ≡ got ctx p') × IsReady (release_context ctx p')
IsReady-got p v = IsReady-front p.idle p.permits v.counted v.some_idle

pub c_string_of_Lacks : (s : Text) → Lacks 0 s → c_string s ≡ s
unfolding c_string
c_string_of_Lacks [] h = refl
c_string_of_Lacks (c ∷ s) (p, h) = rw (p, c_string_of_Lacks s h)

is_counted-one_if : (o : Option Text) → is_counted (one_if o) ≡ is_some o
unfolding is_counted
is_counted-one_if none = refl
is_counted-one_if (some s) = refl

byte_array_of-reply_of : (o : Option Text) → byte_array_of (reply_of o) ≡ value o
unfolding byte_array_of
byte_array_of-reply_of none = refl
byte_array_of-reply_of (some s) = refl

module _ {W : Type 0} (command : ℕ → Command → W → Option Reply × W) where
  pub perform_ready :
      {A : Type 0} (cmd : Command) (read : Reply → A) (st : RedisStore W) (r : Reply) (w : W)
      → IsReady st.pool
      → ((ctx : ℕ) → command ctx cmd st.server ≡ (some r, w))
      → Returns (perform command cmd read st) (read r) w
  unfolding perform
  perform_ready cmd read st r w v e =
      let (ctx, p, took, ready) = IsReady-got st.pool v in
      record { pool = release_context ctx p; same = rw (took, perform, e ctx); ready = ready }

module _ {W : Type 0} (command : ℕ → Command → W → Option Reply × W) (view : W → Text → Option Text)
    (put : Text → Text → W → W) (erase : Text → W → W)
    (server : IsServer command view put erase) where
  abbrev pub Ready : RedisStore W → Type 0
  Ready st = IsReady st.pool

  abbrev pub value_of : RedisStore W → Text → Option Text
  value_of st = view st.server

  gives :
      {A : Type 0} (result : Run A (RedisStore W)) (a b : A) (w : W) (v : Text → Option Text)
      → Returns result a w
      → a ≡ b
      → ((j : Text) → view w j ≡ v j)
      → Gives Ready value_of result b v
  gives result a b w v r e f =
      let after : RedisStore W = record { pool = r.pool; server = w } in
      record {
        after = after;
        same = r.same ∙ ap (λ x. ran x after) e;
        ready_after = r.ready;
        view_after = f;
      }

  exists-Gives :
      (k : Text) (s : RedisStore W)
      → Lacks 0 k
      → Ready s
      → Gives Ready value_of (exists command k s) (is_some (value_of s k)) (value_of s)
  unfolding exists
  exists-Gives k s h v =
      gives (exists command k s) _ _ s.server (value_of s)
        (perform_ready command (exists_key (c_string k)) is_counted s (one_if (value_of s k))
          s.server v (λ ctx. rw (c_string_of_Lacks k h) (server.tells ctx k s.server)))
        (is_counted-one_if (value_of s k)) (λ j. refl)

  set_byte_array-Gives :
      (k x : Text) (s : RedisStore W)
      → Lacks 0 k
      → Ready s
      → Gives Ready value_of
          (set_byte_array command k x s)
          true
          (λ j. if text_eq k j then some x else value_of s j)
  unfolding set_byte_array is_set
  set_byte_array-Gives k x s h v =
      gives (set_byte_array command k x s) _ _ (put k x s.server) _
        (perform_ready command (set_key (c_string k) x) is_set s other (put k x s.server) v
          (λ ctx. rw (c_string_of_Lacks k h) (server.sets ctx k x s.server)))
        refl (λ j. server.view_put k x j s.server)

  get_byte_array-Gives :
      (k : Text) (s : RedisStore W)
      → Lacks 0 k
      → Ready s
      → Gives Ready value_of (get_byte_array command k s) (value (value_of s k)) (value_of s)
  unfolding get_byte_array
  get_byte_array-Gives k s h v =
      gives (get_byte_array command k s) _ _ s.server (value_of s)
        (perform_ready command (get_key (c_string k)) byte_array_of s (reply_of (value_of s k))
          s.server v (λ ctx. rw (c_string_of_Lacks k h) (server.gets ctx k s.server)))
        (byte_array_of-reply_of (value_of s k)) (λ j. refl)

  del-Gives :
      (k : Text) (s : RedisStore W)
      → Lacks 0 k
      → Ready s
      → Gives Ready value_of
          (del command k s)
          (is_some (value_of s k))
          (λ j. if text_eq k j then none else value_of s j)
  unfolding del
  del-Gives k s h v =
      gives (del command k s) _ _ (erase k s.server) _
        (perform_ready command (del_key (c_string k)) is_counted s (one_if (value_of s k))
          (erase k s.server) v (λ ctx. rw (c_string_of_Lacks k h) (server.erases ctx k s.server)))
        (is_counted-one_if (value_of s k)) (λ j. server.view_erase k j s.server)

  -- In every state whose semaphore counts the idle connections, of which there is one at least,
  -- `exists`, `set_byte_array`, `get_byte_array` and `del` return, give back the connection they took,
  -- and treat the keys without a zero byte as a map, if the server does what its documentation says.
  pub redis_store-IsStore : IsStore (redis_store command) Ready value_of
  redis_store-IsStore = record {
    exists_lem = exists-Gives;
    set_byte_array_lem = set_byte_array-Gives;
    get_byte_array_lem = get_byte_array-Gives;
    del_lem = del-Gives;
  }
