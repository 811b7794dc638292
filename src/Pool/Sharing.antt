-- ===== src/Pool/Sharing.antt =====
-- The pool under many threads that take and give back connections in any order.
use clean_architecture_cpp.Base.{
  ℕ, ◌≡◌, ◌≢◌, subst, List, [], ◌∷◌, ◌++◌, append_assoc, length, length-append, arith,
}
use clean_architecture_cpp.Pool.{Pool, undefined, got, get_context, release_context}
use mathlib.Core.List.{Nodup, perm_middle, perm_append_singleton, Perm}
use mathlib.Core.List.Perm

-- The pool, and the connections that the threads hold.
pub record Shared : Type 0 where
  pub pool : Pool
  pub held : List ℕ

-- One step of some thread: it takes a connection, or gives one back that is held.
pub data Step : Shared → Shared → Type 0 where
  takes :
      (s : Shared) (ctx : ℕ) (p : Pool)
      → get_context s.pool ≡ got ctx p
      → Step s (record { pool = p; held = ctx ∷ s.held })
  gives :
      (s : Shared) (ctx : ℕ) (xs ys : List ℕ)
      → s.held ≡ xs ++ ctx ∷ ys
      → Step s (record { pool = release_context ctx s.pool; held = xs ++ ys })

pub data Reach (s : Shared) : Shared → Type 0 where
  here : Reach s s
  next : {t u : Shared} → Reach s t → Step t u → Reach s u

abbrev pub all : Shared → List ℕ
all s = s.held ++ s.pool.idle

-- The semaphore counts the idle connections, and the connections are those of the list, each once.
pub record IsShared (ctxs : List ℕ) (s : Shared) : Type 0 where
  pub counted : s.pool.permits ≡ length s.pool.idle
  pub owned : Perm (all s) ctxs

takes-owned :
    (p p' : Pool) (ctx : ℕ)
    → p.permits ≡ length p.idle
    → get_context p ≡ got ctx p'
    → (p.idle ≡ ctx ∷ p'.idle) × (p'.permits ≡ length p'.idle)
unfolding get_context
takes-owned p p' ctx c e = ground arith

gives-perm :
    (xs ys idle : List ℕ) (ctx : ℕ)
    → Perm ((xs ++ ys) ++ (idle ++ ctx ∷ [])) ((xs ++ ctx ∷ ys) ++ idle)
gives-perm xs ys idle ctx = rw (← append_assoc (xs ++ ys) idle (ctx ∷ [])) (
    Perm.trans (perm_append_singleton ctx ((xs ++ ys) ++ idle))
      (Perm.append_right idle (Perm.symm (perm_middle xs ys))))

Step-IsShared : {ctxs : List ℕ} {s t : Shared} → Step s t → IsShared ctxs s → IsShared ctxs t
unfolding release_context
Step-IsShared {ctxs} (takes s ctx p e) v =
    let (front, counted) = takes-owned s.pool p ctx v.counted e in
    record {
      counted = counted;
      owned =
          Perm.trans (Perm.symm (perm_middle s.held p.idle))
            (subst (λ l. Perm (s.held ++ l) ctxs) front v.owned);
    }
Step-IsShared {ctxs} (gives s ctx xs ys e) v = record {
  counted = omega (arith, v.counted, length-append s.pool.idle (ctx ∷ []));
  owned =
      Perm.trans (gives-perm xs ys s.pool.idle ctx)
        (subst (λ h. Perm (h ++ s.pool.idle) ctxs) e v.owned);
}

run-IsShared : {ctxs : List ℕ} {s t : Shared} → IsShared ctxs s → Reach s t → IsShared ctxs t
run-IsShared v here = v
run-IsShared v (next r st) = Step-IsShared st (run-IsShared v r)

counted-defined : (p : Pool) → p.permits ≡ length p.idle → get_context p ≢ undefined
unfolding get_context
counted-defined p c = ground arith

-- Whatever the threads do, in steps that do not overlap, no connection is lost, made up or held
-- twice, the semaphore counts the idle ones, and a thread that it lets through never finds the deque
-- empty.
pub Reach-IsShared :
    {ctxs : List ℕ} {s t : Shared}
    → Nodup ctxs
    → IsShared ctxs s
    → Reach s t
    → Nodup (all t) × IsShared ctxs t × (get_context t.pool ≢ undefined)
Reach-IsShared {ctxs} {s} {t} n v r =
    let w = run-IsShared v r in
    (Perm.nodup (Perm.symm w.owned) n, w, counted-defined t.pool w.counted)
