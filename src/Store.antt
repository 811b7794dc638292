-- ===== src/Store.antt =====
-- src/interfaces/store: the key-value store. The Redis server and its client library are a section's
-- parameter, a function that answers a command; the pool is that of Pool.antt.
pub mod Redis
pub mod Ensures
use clean_architecture_cpp.Base.{
  Bool, true, false, ◌≡◌, if◌then◌else◌, Text, Option, none, some, text_eq, Lacks,
}
use clean_architecture_cpp.Entities.Log.{Expected, value}

-- The commands that the store sends; an argument is a text of its own.
pub data Command : Type 0 where
  get_key : Text → Command
  set_key : Text → Text → Command
  exists_key : Text → Command
  del_key : Text → Command

-- A call waits for ever at a semaphore without permits, or reads through a null pointer.
pub data Run {ℓ} (A S : Type ℓ) : Type ℓ where
  ran : A → S → Run A S
  waits crashes : Run A S

infixl 5 ◌>>=◌
abbrev pub ◌>>=◌ {ℓ} : {A B S : Type ℓ} → Run A S → (A → S → Run B S) → Run B S
ran a s >>= f = f a s
waits >>= f = waits
crashes >>= f = crashes

-- build.hpp: the operations of `IStore` that the sessions use.
pub record IStore (S : Type 0) : Type 0 where
  pub exists : Text → S → Run Bool S
  pub set_byte_array : Text → Text → S → Run Bool S
  pub get_byte_array : Text → S → Run (Expected (Option Text)) S
  pub del : Text → S → Run Bool S

abbrev pub is_some {ℓ} : {A : Type ℓ} → Option A → Bool
is_some none = false
is_some (some a) = true

-- An operation returns `a`, in a state that is ready and in which each key `j` has the value `v j`.
pub record Gives {A S : Type 0} (ready : S → Type 0) (view : S → Text → Option Text)
    (result : Run A S) (a : A) (v : Text → Option Text) : Type 0 where
  pub after : S
  pub same : result ≡ ran a after
  pub ready_after : ready after
  pub view_after : (j : Text) → view after j ≡ v j

-- What a store promises, in a state that is ready, of keys without a zero byte: it keeps a value for
-- each key.
pub record IsStore {S : Type 0} (store : IStore S) (ready : S → Type 0)
    (view : S → Text → Option Text) : Type 0 where
  pub exists_lem :
      (k : Text) (s : S)
      → Lacks 0 k
      → ready s
      → Gives ready view (store.exists k s) (is_some (view s k)) (view s)
  pub set_byte_array_lem :
      (k v : Text) (s : S)
      → Lacks 0 k
      → ready s
      → Gives ready view
          (store.set_byte_array k v s)
          true
          (λ j. if text_eq k j then some v else view s j)
  pub get_byte_array_lem :
      (k : Text) (s : S)
      → Lacks 0 k
      → ready s
      → Gives ready view (store.get_byte_array k s) (value (view s k)) (view s)
  pub del_lem :
      (k : Text) (s : S)
      → Lacks 0 k
      → ready s
      → Gives ready view
          (store.del k s)
          (is_some (view s k))
          (λ j. if text_eq k j then none else view s j)
