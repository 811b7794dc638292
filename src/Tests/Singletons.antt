-- ===== src/Tests/Singletons.antt =====
-- Runs of the theorems on singleton.cpp, with two threads that race.
use clean_architecture_cpp.Base.{ℕ, ◌≡◌, ◌≢◌, refl, some, [], ◌∷◌}
use clean_architecture_cpp.UseCases.Singletons.{
  login_auth, logout_auth, entered, waiting, checking, making, unlocking, leaving, outside, Objects,
  reads_null, locks, finds_null, finds_made, makes, unlocks, enters, goes, returns, Reach, here,
  next, new_threads,
}
use clean_architecture_cpp.UseCases.Singletons.Once.{IsOnce, Reach-IsOnce}
use clean_architecture_cpp.UseCases.Singletons.Progress.{Goes, Reach-Goes}

-- Both threads find the pointer null; one makes the object 7, and both return it.
raced :
    (σ : Objects) × Reach new_threads σ
    × (σ.returned ≡ (logout_auth, some 7) ∷ (logout_auth, some 7) ∷ [])
    × (σ.made logout_auth ≡ 1)
raced =
    let l = logout_auth in
    let c0 : Reach new_threads new_threads = here in
    let c1 = next 0 c0 (enters l refl) in
    let c2 = next 1 c1 (enters l refl) in
    let c3 = next 0 c2 (goes l entered waiting _ refl (reads_null refl)) in
    let c4 = next 1 c3 (goes l entered waiting _ refl (reads_null refl)) in
    let c5 = next 0 c4 (goes l waiting checking _ refl (locks refl)) in
    let c6 = next 0 c5 (goes l checking making _ refl (finds_null refl)) in
    let c7 = next 0 c6 (goes l making unlocking _ refl (makes 7 refl)) in
    let c8 = next 0 c7 (goes l unlocking leaving _ refl unlocks) in
    let c9 = next 1 c8 (goes l waiting checking _ refl (locks refl)) in
    let c10 = next 1 c9 (goes l checking unlocking _ refl (finds_made 7 refl)) in
    let c11 = next 1 c10 (goes l unlocking leaving _ refl unlocks) in
    let c12 = next 1 c11 (returns l refl) in
    let c13 = next 0 c12 (returns l refl) in (_, c13, refl, refl)

Reach-IsOnce_example : IsOnce raced.0
Reach-IsOnce_example = Reach-IsOnce raced.1

-- A thread waits for the mutex of another.
blocked :
    (σ : Objects) × Reach new_threads σ × (σ.place 1 ≢ outside) × (σ.owner login_auth ≡ some 0)
blocked =
    let l = login_auth in
    let c0 : Reach new_threads new_threads = here in
    let c1 = next 0 c0 (enters l refl) in
    let c2 = next 1 c1 (enters l refl) in
    let c3 = next 0 c2 (goes l entered waiting _ refl (reads_null refl)) in
    let c4 = next 1 c3 (goes l entered waiting _ refl (reads_null refl)) in
    let c5 = next 0 c4 (goes l waiting checking _ refl (locks refl)) in (_, c5, (λ e. cc), refl)

Reach-Goes_example : (u : ℕ) × Goes blocked.0 u
Reach-Goes_example = Reach-Goes 1 blocked.1 blocked.2
