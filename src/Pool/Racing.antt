-- ===== src/Pool/Racing.antt =====
-- redis.cpp and pg.cpp: `get_context` and `get_client` call by call. The calls of the semaphore and of
-- the deque of several threads come in any order, since nothing else keeps the threads apart.
use clean_architecture_cpp.Base.{
  ℕ, suc, ◌==◌, ◌||◌, ◌≡◌, refl, if◌then◌else◌, List, ◌∷◌, push_back, arith,
}
use clean_architecture_cpp.Pool.{Pool}

-- Where a thread stands: outside, behind `acquire`, behind `front` of a connection, behind `pop_front`
-- with that connection, or behind the `push_back` of its return.
pub data Phase : Type 0 where
  outside admitted returned : Phase
  peeked holds : ℕ → Phase

pub record Threads : Type 0 where
  pub pool : Pool
  pub phase : ℕ → Phase

abbrev pub move : ℕ → Phase → (ℕ → Phase) → ℕ → Phase
move t p phase u = if u == t then p else phase u

-- One call of a thread.
pub data Call (s : Threads) : Threads → Type 0 where
  acquires :
      (t n : ℕ)
      → s.phase t ≡ outside
      → s.pool.permits ≡ suc n
      → Call s (record {
        pool = record { idle = s.pool.idle; permits = n };
        phase = move t admitted s.phase;
      })
  fronts :
      (t ctx : ℕ) (rest : List ℕ)
      → s.phase t ≡ admitted
      → s.pool.idle ≡ ctx ∷ rest
      → Call s (record { pool = s.pool; phase = move t (peeked ctx) s.phase })
  pops :
      (t ctx first : ℕ) (rest : List ℕ)
      → s.phase t ≡ peeked ctx
      → s.pool.idle ≡ first ∷ rest
      → Call s (record {
        pool = record { idle = rest; permits = s.pool.permits };
        phase = move t (holds ctx) s.phase;
      })
  pushes :
      (t ctx : ℕ)
      → s.phase t ≡ holds ctx
      → Call s (record {
        pool = record { idle = push_back s.pool.idle ctx; permits = s.pool.permits };
        phase = move t returned s.phase;
      })
  releases :
      (t : ℕ)
      → s.phase t ≡ returned
      → Call s (record {
        pool = record { idle = s.pool.idle; permits = suc s.pool.permits };
        phase = move t outside s.phase;
      })

pub data Calls (s : Threads) : Threads → Type 0 where
  here : Calls s s
  next : {u v : Threads} → Calls s u → Call u v → Calls s v

abbrev pub all_outside : ℕ → Phase
all_outside t = outside

abbrev pub at_start : List ℕ → ℕ → Threads
at_start idle n = record { pool = record { idle = idle; permits = n }; phase = all_outside }

-- From a pool of at least two connections, `a` in front of `b`, under at least two permits, with all
-- threads outside, there are calls of two threads after which both hold `a`, all others are outside,
-- and the pool has neither: `b` is lost.
pub front_twice :
    (a b n : ℕ) (rest : List ℕ)
    → (s : Threads) × Calls (at_start (a ∷ b ∷ rest) (suc (suc n))) s
      × (s.pool ≡ record { idle = rest; permits = n })
      × ((t : ℕ) → s.phase t ≡ (if (t == 0) || (t == 1) then holds a else outside))
front_twice a b n rest =
    let s0 = at_start (a ∷ b ∷ rest) (suc (suc n)) in
    let c0 : Calls s0 s0 = here in
    let c1 = next c0 (acquires 0 (suc n) refl refl) in
    let c2 = next c1 (acquires 1 n refl refl) in
    let c3 = next c2 (fronts 0 a (b ∷ rest) refl refl) in
    let c4 = next c3 (fronts 1 a (b ∷ rest) refl refl) in
    let c5 = next c4 (pops 0 a a (b ∷ rest) refl refl) in
    let c6 = next c5 (pops 1 a b rest refl refl) in (_, c6, refl, λ t. ground arith)
