-- ===== src/UseCases/Singletons/Progress.antt =====
-- singleton.cpp: the calls never wait for one another for ever.
use clean_architecture_cpp.Base.{
  ℕ, ◌≡◌, ◌≢◌, refl, ap, ◌∙◌, ◌⊎◌, inl, inr, ◌<◌, true, Bool-cases, Option-cases, some,
}
use clean_architecture_cpp.UseCases.Singletons.{
  Slot, user_db, needs_users, At, entered, waiting, checking, making, unlocking, leaving, Place,
  outside, calls, asks, asked, Objects, Inner, reads_null, reads_made, locks, finds_null,
  finds_made, makes, unlocks, Step, goes, asks_users, goes_asking, told, makes_with, returns, Reach,
  new_threads,
}
use clean_architecture_cpp.UseCases.Singletons.Leaves.{Good}
use clean_architecture_cpp.UseCases.Singletons.Once.{IsOnce, Reach-IsOnce}
use clean_architecture_cpp.UseCases.Singletons.Measure.{way_left, Step-way_left}
use clean_architecture_cpp.UseCases.Singletons.Owners.{Section, Inside, IsOwned, Reach-IsOwned}

-- A thread in a call that has a step.
pub record Goes (σ : Objects) (t : ℕ) : Type 0 where
  pub calling : σ.place t ≢ outside
  pub after : Objects
  pub step : Step t σ after
  pub nearer : way_left (after.place t) < way_left (σ.place t)

moves-Goes : {σ τ : Objects} (t : ℕ) → σ.place t ≢ outside → Step t σ τ → Goes σ t
moves-Goes t n s = record { calling = n; after = _; step = s; nearer = Step-way_left s n }

-- A step inside of a function, if there is one from that point.
abbrev HasInner : ℕ → Slot → Objects → At → Type 0
HasInner t s σ a = (b : At) × (τ : Objects) × Inner t s σ a b τ

entered-HasInner : (t : ℕ) (s : Slot) (σ : Objects) → HasInner t s σ entered
entered-HasInner t s σ = elim (Option-cases (σ.ptr s)) [
  | inl e ↦ (waiting, _, reads_null e)
  | inr (o, e) ↦ (leaving, _, reads_made o e)
]

Section-HasInner :
    (t : ℕ) (s : Slot) (σ : Objects) (a : At)
    → Section a
    → ((a ≡ making) × (needs_users s ≡ true)) ⊎ HasInner t s σ a
Section-HasInner t s σ entered h = absurd h
Section-HasInner t s σ waiting h = absurd h
Section-HasInner t s σ checking h = elim (Option-cases (σ.ptr s)) [
  | inl e ↦ inr (making, _, finds_null e)
  | inr (o, e) ↦ inr (unlocking, _, finds_made o e)
]
Section-HasInner t s σ making h = elim (Bool-cases (needs_users s)) [
  | inl e ↦ inl (refl, e)
  | inr e ↦ inr (unlocking, _, makes 0 e)
]
Section-HasInner t s σ unlocking h = inr (leaving, _, unlocks)
Section-HasInner t s σ leaving h = absurd h

calls-Goes :
    (t : ℕ) (s : Slot) (a : At) (σ : Objects) → σ.place t ≡ calls s a → HasInner t s σ a → Goes σ t
calls-Goes t s a σ e (b, τ, i) = moves-Goes t (λ f. cc) (goes s a b τ e i)

asks-Goes :
    (t : ℕ) (s : Slot) (a : At) (σ : Objects)
    → σ.place t ≡ asks s a
    → HasInner t user_db σ a
    → Goes σ t
asks-Goes t s a σ e (b, τ, i) = moves-Goes t (λ f. cc) (goes_asking s a b τ e i)

Section-Goes :
    (t : ℕ) (s : Slot) (a : At) (σ : Objects) → σ.place t ≡ calls s a → Section a → Goes σ t
Section-Goes t s a σ e h = elim (Section-HasInner t s σ a h) [
  | inl (m, needs) ↦ moves-Goes t (λ f. cc) (asks_users s (e ∙ ap (calls s) m) needs)
  | inr i ↦ calls-Goes t s a σ e i
]

asking-Section-Goes :
    (t : ℕ) (s : Slot) (a : At) (σ : Objects) → σ.place t ≡ asks s a → Section a → Goes σ t
asking-Section-Goes t s a σ e h = elim (Section-HasInner t user_db σ a h) [
  | inl (m, needs) ↦ absurd (cc)
  | inr i ↦ asks-Goes t s a σ e i
]

asked-Goes : (t : ℕ) (s : Slot) (σ : Objects) → σ.place t ≡ asked s → Goes σ t
asked-Goes t s σ e = moves-Goes t (λ f. cc) (makes_with s 0 e)

abbrev pub SomeGoes : Objects → Type 0
SomeGoes σ = (u : ℕ) × Goes σ u

-- Whoever holds the mutex of the table of users has a step.
users_owner-Goes :
    (σ : Objects) (u : ℕ) (p : Place) → Good σ u p → σ.place u ≡ p → Inside user_db p → Goes σ u
users_owner-Goes σ u outside g e h = absurd h
users_owner-Goes σ u (calls s a) g e (same, h) = Section-Goes u s a σ e h
users_owner-Goes σ u (asks s a) g e (inl same) =
    let needs : needs_users s ≡ true = g.0 in let f = ap needs_users same in absurd (cc)
users_owner-Goes σ u (asks s a) g e (inr (same, h)) = asking-Section-Goes u s a σ e h
users_owner-Goes σ u (asked s) g e same = asked-Goes u s σ e

waits-Goes :
    (σ : Objects) (s : Slot) (t : ℕ)
    → (HasInner t s σ waiting → SomeGoes σ)
    → ((u : ℕ) → σ.owner s ≡ some u → SomeGoes σ)
    → SomeGoes σ
waits-Goes σ s t go owned = elim (Option-cases (σ.owner s)) [
  | inl e ↦ go (checking, _, locks e)
  | inr (u, e) ↦ owned u e
]

asks_any-Goes :
    (σ : Objects) (t : ℕ) (s : Slot) (a : At)
    → IsOnce σ
    → IsOwned σ
    → σ.place t ≡ asks s a
    → SomeGoes σ
asks_any-Goes σ t s entered g h e = (t, asks-Goes t s entered σ e (entered-HasInner t user_db σ))
asks_any-Goes σ t s waiting g h e =
    waits-Goes σ user_db t (λ i. (t, asks-Goes t s waiting σ e i))
      (λ u o. (u, users_owner-Goes σ u (σ.place u) (g.good u) refl (h user_db u o)))
asks_any-Goes σ t s checking g h e = (t, asking-Section-Goes t s checking σ e tt)
asks_any-Goes σ t s making g h e = (t, asking-Section-Goes t s making σ e tt)
asks_any-Goes σ t s unlocking g h e = (t, asking-Section-Goes t s unlocking σ e tt)
asks_any-Goes σ t s leaving g h e = (t, moves-Goes t (λ f. cc) (told s e))

-- Where somebody holds a mutex, somebody has a step.
owner-Goes :
    (σ : Objects) (s : Slot) (u : ℕ) (p : Place)
    → IsOnce σ
    → IsOwned σ
    → σ.place u ≡ p
    → Inside s p
    → SomeGoes σ
owner-Goes σ s u outside g h e i = absurd i
owner-Goes σ s u (calls r a) g h e (same, i) = (u, Section-Goes u r a σ e i)
owner-Goes σ s u (asks r a) g h e i = asks_any-Goes σ u r a g h e
owner-Goes σ s u (asked r) g h e i = (u, asked-Goes u r σ e)

calls_any-Goes :
    (σ : Objects) (t : ℕ) (s : Slot) (a : At)
    → IsOnce σ
    → IsOwned σ
    → σ.place t ≡ calls s a
    → SomeGoes σ
calls_any-Goes σ t s entered g h e = (t, calls-Goes t s entered σ e (entered-HasInner t s σ))
calls_any-Goes σ t s waiting g h e =
    waits-Goes σ s t (λ i. (t, calls-Goes t s waiting σ e i))
      (λ u o. owner-Goes σ s u (σ.place u) g h refl (h s u o))
calls_any-Goes σ t s checking g h e = (t, Section-Goes t s checking σ e tt)
calls_any-Goes σ t s making g h e = (t, Section-Goes t s making σ e tt)
calls_any-Goes σ t s unlocking g h e = (t, Section-Goes t s unlocking σ e tt)
calls_any-Goes σ t s leaving g h e = (t, moves-Goes t (λ f. cc) (returns s e))

place-Goes :
    (σ : Objects) (t : ℕ) (p : Place)
    → IsOnce σ
    → IsOwned σ
    → σ.place t ≡ p
    → p ≢ outside
    → SomeGoes σ
place-Goes σ t outside g h e n = absurd (n refl)
place-Goes σ t (calls s a) g h e n = calls_any-Goes σ t s a g h e
place-Goes σ t (asks s a) g h e n = asks_any-Goes σ t s a g h e
place-Goes σ t (asked s) g h e n = (t, asked-Goes t s σ e)

-- From the start, whatever the threads have done: as long as some thread is in a call of one of the
-- functions, some thread in a call has a step to make, after which it has fewer steps left before its
-- return.
pub Reach-Goes :
    {σ : Objects} (t : ℕ) → Reach new_threads σ → σ.place t ≢ outside → (u : ℕ) × Goes σ u
Reach-Goes {σ} t r n = place-Goes σ t (σ.place t) (Reach-IsOnce r) (Reach-IsOwned r) refl n
