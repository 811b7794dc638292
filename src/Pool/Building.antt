-- ===== src/Pool/Building.antt =====
-- redis.cpp and pg.cpp: what the constructors leave when all attempts to connect succeed, and when
-- one fails.
use clean_architecture_cpp.Base.{
  ℕ, suc, ◌+◌, ◌==◌, if◌then◌else◌, ◌≤◌, ◌≡◌, ◌≢◌, refl, ◌∙◌, ap, List, [], ◌∷◌, ◌++◌, push_back,
  append_assoc, append-nil, map, length, none, Text, arith,
}
use clean_architecture_cpp.Pool.{Attempt, connected, failed, build_store, destroy}

-- How often a connection is freed.
unfoldable pub times_freed : ℕ → List ℕ → ℕ
times_freed ctx [] = 0
times_freed ctx (c ∷ cs) = if c == ctx then suc (times_freed ctx cs) else times_freed ctx cs

times_freed-append :
    (ctx : ℕ) (xs ys : List ℕ)
    → times_freed ctx (xs ++ ys) ≡ times_freed ctx xs + times_freed ctx ys
unfolding times_freed
times_freed-append ctx [] ys = omega arith
times_freed-append ctx (c ∷ xs) ys = ground (arith, times_freed-append ctx xs ys)

times_freed-mem : (c : ℕ) (before after : List ℕ) → 1 ≤ times_freed c (before ++ c ∷ after)
unfolding times_freed
times_freed-mem c [] after = ground arith
times_freed-mem c (b ∷ before) after = ground (arith, times_freed-mem c before after)

build_store-connected :
    (n : ℕ) (made ctxs : List ℕ)
    → build_store n made (map connected ctxs)
      ≡ record { pool = record { idle = made ++ ctxs; permits = n }; error = none; freed = [] }
unfolding build_store
build_store-connected n made [] = rw (append-nil made)
build_store-connected n made (c ∷ ctxs) =
    build_store-connected n (push_back made c) ctxs ∙ (rw (append_assoc made (c ∷ []) ctxs))

-- When every attempt connects, the store reports no error, its pool holds the connections in their
-- order under as many permits as it was asked for, and destroying it frees each of them as often as
-- it was made.
pub build_store_connects :
    (ctxs : List ℕ)
    → let b = build_store (length ctxs) [] (map connected ctxs) in
      (b.error ≡ none)
      × (b.pool ≡ record { idle = ctxs; permits = length ctxs })
      × (destroy b ≡ ctxs)
unfolding destroy
build_store_connects ctxs = rw (build_store-connected (length ctxs) [] ctxs) (refl, refl, refl)

build_store-failed :
    (n : ℕ) (made ctxs : List ℕ) (ctx : ℕ) (errstr : Text) (later : List Attempt)
    → let b = build_store n made (map connected ctxs ++ failed ctx errstr ∷ later) in
      (b.error ≢ none) × (b.freed ≡ (made ++ ctxs) ++ ctx ∷ []) × (b.pool.idle ≡ made ++ ctxs)
unfolding build_store
build_store-failed n made [] ctx errstr later = rw (append-nil made) ((λ e. cc), refl, refl)
build_store-failed n made (c ∷ ctxs) ctx errstr later =
    let (e, f, i) = build_store-failed n (push_back made c) ctxs ctx errstr later in
    (e, f ∙ (rw (append_assoc made (c ∷ []) ctxs)), i ∙ append_assoc made (c ∷ []) ctxs)

-- When an attempt ends in a connection with an error, behind others that connected, the store reports an error, and destroying it
-- frees each connection that was made before the failure at least twice.
pub build_store_frees_twice :
    (n : ℕ) (before after : List ℕ) (c ctx : ℕ) (errstr : Text) (later : List Attempt)
    → let b = build_store n [] (map connected (before ++ c ∷ after) ++ failed ctx errstr ∷ later) in
      (b.error ≢ none) × (2 ≤ times_freed c (destroy b))
unfolding destroy
build_store_frees_twice n before after c ctx errstr later =
    let ctxs = before ++ c ∷ after in
    let b = build_store n [] (map connected ctxs ++ failed ctx errstr ∷ later) in
    let (e, f, i) = build_store-failed n [] ctxs ctx errstr later in
    (
      e,
      omega (
        arith,
        ap (times_freed c) f,
        ap (times_freed c) i,
        times_freed-append c b.freed b.pool.idle,
        times_freed-append c ctxs (ctx ∷ []),
        times_freed-mem c before after,
      ),
    )
