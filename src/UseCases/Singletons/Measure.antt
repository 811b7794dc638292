-- ===== src/UseCases/Singletons/Measure.antt =====
-- singleton.cpp: how far a call is from its return.
use clean_architecture_cpp.Base.{ℕ, ◌+◌, ◌≡◌, ◌≢◌, ◌<◌, arith}
use clean_architecture_cpp.UseCases.Singletons.{
  Slot, At, entered, waiting, checking, making, unlocking, leaving, Place, go_to, enters, outside,
  calls, asks, asked, Objects, Inner, reads_null, reads_made, locks, finds_null, finds_made, makes,
  unlocks, Step, goes, asks_users, goes_asking, told, makes_with, returns,
}

-- How many steps of its own a thread has before it at most, until its call returns.
unfoldable pub steps_left : At → ℕ
steps_left entered = 6
steps_left waiting = 5
steps_left checking = 4
steps_left making = 3
steps_left unlocking = 2
steps_left leaving = 1

unfoldable pub way_left : Place → ℕ
unfolding steps_left
way_left outside = 0
way_left (calls s entered) = 16
way_left (calls s waiting) = 15
way_left (calls s checking) = 14
way_left (calls s making) = 13
way_left (calls s unlocking) = 2
way_left (calls s leaving) = 1
way_left (asks s a) = 5 + steps_left a
way_left (asked s) = 4

Inner-way_left :
    {t : ℕ} {s : Slot} {σ τ : Objects} {a b : At} (r : Slot)
    → Inner t s σ a b τ
    → (way_left (calls r b) < way_left (calls r a)) × (way_left (asks r b) < way_left (asks r a))
unfolding way_left
Inner-way_left r (reads_null e) = omega arith
Inner-way_left r (reads_made o e) = omega arith
Inner-way_left r (locks e) = omega arith
Inner-way_left r (finds_null e) = omega arith
Inner-way_left r (finds_made o e) = omega arith
Inner-way_left r (makes o e) = omega arith
Inner-way_left r unlocks = omega arith

stands_at : (t : ℕ) (p : Place) (place : ℕ → Place) → go_to t p place t ≡ p
stands_at t p place = ground arith

moves-way_left :
    (t : ℕ) (p q : Place) (place : ℕ → Place)
    → place t ≡ p
    → way_left q < way_left p
    → way_left (go_to t q place t) < way_left (place t)
moves-way_left t p q place e h = rw (stands_at t q place, e) h

-- Each step of a thread in a call brings it nearer to its return.
pub Step-way_left :
    {t : ℕ} {σ τ : Objects}
    → Step t σ τ
    → σ.place t ≢ outside
    → way_left (τ.place t) < way_left (σ.place t)
unfolding way_left
Step-way_left {t} {σ} (enters s e) n = absurd (n e)
Step-way_left {t} {σ} (goes s a b τ e i) n =
    moves-way_left t (calls s a) (calls s b) σ.place e (Inner-way_left s i).0
Step-way_left {t} {σ} (asks_users s e needs) n =
    moves-way_left t (calls s making) (asks s entered) σ.place e (omega arith)
Step-way_left {t} {σ} (goes_asking s a b τ e i) n =
    moves-way_left t (asks s a) (asks s b) σ.place e (Inner-way_left s i).1
Step-way_left {t} {σ} (told s e) n =
    moves-way_left t (asks s leaving) (asked s) σ.place e (omega arith)
Step-way_left {t} {σ} (makes_with s o e) n =
    moves-way_left t (asked s) (calls s unlocking) σ.place e (omega arith)
Step-way_left {t} {σ} (returns s e) n =
    moves-way_left t (calls s leaving) outside σ.place e (omega arith)
