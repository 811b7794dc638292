-- ===== src/UseCases/Singletons.antt =====
-- use-cases/auth/singleton.cpp and db/user/singleton.hpp: the objects of the use cases and of the table
-- of users, each made by the first of the threads that need it, call by call. Reads and writes of a
-- pointer are steps of their own, in one order for all threads.
use clean_architecture_cpp.Base.{
  ℕ, suc, ◌==◌, ◌≡◌, Bool, true, false, if◌then◌else◌, Option, none, some, List, [], ◌∷◌,
}
pub mod Leaves
pub mod Once
pub mod Owners
pub mod Measure
pub mod Progress

-- The pointers of the two files.
pub data Slot : Type 0 where
  login_auth logout_auth get_user_auth register_auth user_db : Slot

abbrev pub index : Slot → ℕ
index login_auth = 0
index logout_auth = 1
index get_user_auth = 2
index register_auth = 3
index user_db = 4

-- Whether the constructor takes what `get_user_db` returns.
abbrev pub needs_users : Slot → Bool
needs_users login_auth = true
needs_users logout_auth = false
needs_users get_user_auth = false
needs_users register_auth = true
needs_users user_db = false

-- Where a call of one of the functions stands: before the first test of the pointer, before `lock`, in
-- front of the second test, behind it with a null pointer, before `unlock`, and before the return.
pub data At : Type 0 where
  entered waiting checking making unlocking leaving : At

-- Where a thread stands: outside, in a call, in the call of `get_user_db` in the midst of the making of
-- another object, or behind that call.
pub data Place : Type 0 where
  outside : Place
  calls : Slot → At → Place
  asks : Slot → At → Place
  asked : Slot → Place

-- The pointers with the objects that they hold, the threads that hold the mutexes, how many objects
-- were made for each pointer, what was returned to callers outside, and where the threads stand.
pub record Objects : Type 0 where
  pub ptr : Slot → Option ℕ
  pub owner : Slot → Option ℕ
  pub made : Slot → ℕ
  pub returned : List (Slot × Option ℕ)
  pub place : ℕ → Place

abbrev pub at_slot : {A : Type 0} → Slot → A → (Slot → A) → Slot → A
at_slot s a f u = if index u == index s then a else f u

abbrev pub go_to : ℕ → Place → (ℕ → Place) → ℕ → Place
go_to t p place u = if u == t then p else place u

-- What a thread does inside one of the functions: it goes on to another point, by a test of the
-- pointer; or it takes the mutex; or it makes the object; or it gives the mutex back.
pub data Inner (t : ℕ) (s : Slot) (σ : Objects) : At → At → Objects → Type 0 where
  reads_null : σ.ptr s ≡ none → Inner t s σ entered waiting σ
  reads_made : (o : ℕ) → σ.ptr s ≡ some o → Inner t s σ entered leaving σ
  locks :
      σ.owner s ≡ none
      → Inner t s σ waiting checking (record σ { owner = at_slot s (some t) σ.owner })
  finds_null : σ.ptr s ≡ none → Inner t s σ checking making σ
  finds_made : (o : ℕ) → σ.ptr s ≡ some o → Inner t s σ checking unlocking σ
  makes :
      (o : ℕ)
      → needs_users s ≡ false
      → Inner t s σ making unlocking
          (record σ { ptr = at_slot s (some o) σ.ptr; made = at_slot s (suc (σ.made s)) σ.made })
  unlocks : Inner t s σ unlocking leaving (record σ { owner = at_slot s none σ.owner })

-- One step of thread `t`.
pub data Step (t : ℕ) (σ : Objects) : Objects → Type 0 where
  enters :
      (s : Slot)
      → σ.place t ≡ outside
      → Step t σ (record σ { place = go_to t (calls s entered) σ.place })
  goes :
      (s : Slot) (a b : At) (τ : Objects)
      → σ.place t ≡ calls s a
      → Inner t s σ a b τ
      → Step t σ (record τ { place = go_to t (calls s b) σ.place })
  asks_users :
      (s : Slot)
      → σ.place t ≡ calls s making
      → needs_users s ≡ true
      → Step t σ (record σ { place = go_to t (asks s entered) σ.place })
  goes_asking :
      (s : Slot) (a b : At) (τ : Objects)
      → σ.place t ≡ asks s a
      → Inner t user_db σ a b τ
      → Step t σ (record τ { place = go_to t (asks s b) σ.place })
  told :
      (s : Slot)
      → σ.place t ≡ asks s leaving
      → Step t σ (record σ { place = go_to t (asked s) σ.place })
  makes_with :
      (s : Slot) (o : ℕ)
      → σ.place t ≡ asked s
      → Step t σ (record σ {
        ptr = at_slot s (some o) σ.ptr;
        made = at_slot s (suc (σ.made s)) σ.made;
        place = go_to t (calls s unlocking) σ.place;
      })
  returns :
      (s : Slot)
      → σ.place t ≡ calls s leaving
      → Step t σ
          (record σ { returned = (s, σ.ptr s) ∷ σ.returned; place = go_to t outside σ.place })

pub data Reach (σ : Objects) : Objects → Type 0 where
  here : Reach σ σ
  next : {τ υ : Objects} (t : ℕ) → Reach σ τ → Step t τ υ → Reach σ υ

-- No pointer is set, no mutex is held, and no thread is in a call.
abbrev pub new_threads : Objects
new_threads = record {
  ptr = λ s. none;
  owner = λ s. none;
  made = λ s. 0;
  returned = [];
  place = λ t. outside;
}
