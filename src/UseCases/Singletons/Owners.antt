-- ===== src/UseCases/Singletons/Owners.antt =====
-- singleton.cpp: who holds a mutex is in its critical section.
use clean_architecture_cpp.Base.{
  ℕ, ◌==◌, ◌≡◌, ◌∙◌, sym, ap, ◌⊎◌, inl, inr, subst, false, Bool-cases, none, some, arith,
}
use clean_architecture_cpp.UseCases.Singletons.{
  Slot, user_db, index, At, entered, waiting, checking, making, unlocking, leaving, Place, outside,
  calls, asks, asked, Objects, go_to, Inner, reads_null, reads_made, locks, finds_null, finds_made,
  makes, unlocks, Step, enters, goes, asks_users, goes_asking, told, makes_with, returns, Reach,
  here, next, new_threads,
}
use clean_architecture_cpp.UseCases.Singletons.Leaves.{
  Good, set-at_slot, same_slot, asks_other, Inner-other,
}
use clean_architecture_cpp.UseCases.Singletons.Once.{IsOnce, Reach-IsOnce}

-- The points between `lock` and `unlock`.
abbrev pub Section : At → Type 0
Section entered = ⊥
Section waiting = ⊥
Section checking = Unit
Section making = Unit
Section unlocking = Unit
Section leaving = ⊥

-- Whether a thread that stands there is between `lock` and `unlock` of the mutex.
abbrev pub Inside : Slot → Place → Type 0
Inside s outside = ⊥
Inside s (calls r a) = (r ≡ s) × Section a
Inside s (asks r a) = (r ≡ s) ⊎ ((user_db ≡ s) × Section a)
Inside s (asked r) = r ≡ s

abbrev pub IsOwned : Objects → Type 0
IsOwned σ = (s : Slot) (u : ℕ) → σ.owner s ≡ some u → Inside s (σ.place u)

Inner-Section :
    {t : ℕ} {s : Slot} {σ τ : Objects} {a b : At}
    → Inner t s σ a b τ
    → (σ.owner s ≡ some t → Section a)
    → τ.owner s ≡ some t
    → Section b
Inner-Section (reads_null e) h o = absurd (h o)
Inner-Section (reads_made p e) h o = absurd (h o)
Inner-Section (locks e) h o = tt
Inner-Section (finds_null e) h o = tt
Inner-Section (finds_made p e) h o = tt
Inner-Section (makes p e) h o = tt
Inner-Section {t} {s} {σ} unlocks h o = let freed = set-at_slot s none σ.owner in absurd (cc)

-- A mutex that another thread holds behind a step was its own before.
Inner-owner :
    {t : ℕ} {s : Slot} {σ τ : Objects} {a b : At} (u : Slot) (v : ℕ)
    → Inner t s σ a b τ
    → (v == t) ≡ false
    → τ.owner u ≡ some v
    → σ.owner u ≡ some v
Inner-owner u v (reads_null e) n o = o
Inner-owner u v (reads_made p e) n o = o
Inner-owner u v (locks e) n o = ground arith
Inner-owner u v (finds_null e) n o = o
Inner-owner u v (finds_made p e) n o = o
Inner-owner u v (makes p e) n o = o
Inner-owner u v unlocks n o = ground arith

moves-IsOwned :
    (t : ℕ) (p : Place) (σ τ : Objects)
    → IsOwned σ
    → ((s : Slot) (u : ℕ) → (u == t) ≡ false → τ.owner s ≡ some u → σ.owner s ≡ some u)
    → ((s : Slot) → τ.owner s ≡ some t → Inside s p)
    → (s : Slot) (u : ℕ) → τ.owner s ≡ some u
    → Inside s (go_to t p σ.place u)
moves-IsOwned t p σ τ h back own s u o = elim (Bool-cases (u == t)) [
  | inl e ↦ let same : u ≡ t = ground arith in rw e (own s (subst (λ v. τ.owner s ≡ some v) same o))
  | inr e ↦ rw e (h s u (back s u e o))
]

inside :
    (σ : Objects) (t : ℕ) (p : Place) (s : Slot)
    → IsOwned σ
    → σ.place t ≡ p
    → σ.owner s ≡ some t
    → Inside s p
inside σ t p s h e o = subst (Inside s) e (h s t o)

Step-IsOwned : {t : ℕ} {σ τ : Objects} → Step t σ τ → IsOnce σ → IsOwned σ → IsOwned τ
Step-IsOwned {t} {σ} (enters s e) g h =
    moves-IsOwned t (calls s entered) σ σ h (λ u v n o. o)
      (λ u o. absurd (inside σ t outside u h e o))
Step-IsOwned {t} {σ} (goes s a b τ e i) g h =
    moves-IsOwned t (calls s b) σ τ h (λ u v n o. Inner-owner u v i n o)
      (λ u o. elim (Bool-cases (index u == index s)) [
        | inl f ↦
            let same = same_slot u s f in
            (
              sym same,
              Inner-Section i (λ k. (inside σ t (calls s a) s h e k).1) (ap τ.owner (sym same) ∙ o),
            )
        | inr f ↦
            let (owner, ptr) = Inner-other u f i in
            let (r, sec) = inside σ t (calls s a) u h e (sym owner ∙ o) in
            absurd (ground (arith, ap index r))
      ])
Step-IsOwned {t} {σ} (asks_users s e needs) g h =
    moves-IsOwned t (asks s entered) σ σ h (λ u v n o. o)
      (λ u o. inl (inside σ t (calls s making) u h e o).0)
Step-IsOwned {t} {σ} (goes_asking s a b τ e i) g h =
    let good = subst (Good σ t) e (g.good t) in
    moves-IsOwned t (asks s b) σ τ h (λ u v n o. Inner-owner u v i n o)
      (λ u o. elim (Bool-cases (index u == index user_db)) [
        | inl f ↦
            let same = same_slot u user_db f in
            inr (
              sym same,
              Inner-Section i
                  (λ k. elim (inside σ t (asks s a) user_db h e k) [
                    | inl r ↦ absurd (ground (arith, ap index r, asks_other s good.0))
                    | inr (r, sec) ↦ sec
                  ])
                  (ap τ.owner (sym same) ∙ o),
            )
        | inr f ↦
            let (owner, ptr) = Inner-other u f i in
            elim (inside σ t (asks s a) u h e (sym owner ∙ o)) [
              | inl r ↦ inl r
              | inr (r, sec) ↦ absurd (ground (arith, ap index r))
            ]
      ])
Step-IsOwned {t} {σ} (told s e) g h =
    moves-IsOwned t (asked s) σ σ h (λ u v n o. o)
      (λ u o. elim (inside σ t (asks s leaving) u h e o) [ inl r ↦ r | inr (r, sec) ↦ absurd sec ])
Step-IsOwned {t} {σ} (makes_with s p e) g h =
    moves-IsOwned t (calls s unlocking) σ σ h (λ u v n o. o)
      (λ u o. (inside σ t (asked s) u h e o, tt))
Step-IsOwned {t} {σ} (returns s e) g h =
    moves-IsOwned t outside σ σ h (λ u v n o. o) (λ u o. (inside σ t (calls s leaving) u h e o).1)

pub Reach-IsOwned : {σ : Objects} → Reach new_threads σ → IsOwned σ
Reach-IsOwned here = λ s u o. absurd (cc)
Reach-IsOwned (next t r s) = Step-IsOwned s (Reach-IsOnce r) (Reach-IsOwned r)
