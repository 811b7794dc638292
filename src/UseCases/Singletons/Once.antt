-- ===== src/UseCases/Singletons/Once.antt =====
-- singleton.cpp: each object is made once, and all callers get it.
use clean_architecture_cpp.Base.{
  ℕ, suc, ◌==◌, ◌≡◌, refl, ◌∙◌, sym, inl, inr, subst, Bool-cases, Option, some, List, [], ◌∷◌,
  arith,
}
use clean_architecture_cpp.UseCases.Singletons.{
  Slot, user_db, At, entered, making, unlocking, leaving, Place, outside, calls, asks, asked,
  Objects, at_slot, go_to, Inner, Step, enters, goes, asks_users, goes_asking, told, makes_with,
  returns, Reach, here, next, new_threads,
}
use clean_architecture_cpp.UseCases.Singletons.Leaves.{
  GoodAt, Good, IsFilled, IsCounted, Leaves, Leaves-Good, makes-Leaves, same-Leaves, Inner-Leaves,
  set-at_slot, Inner-GoodAt, asks_other, Inner-other, Inner-returned, makes-IsCounted,
  Inner-IsCounted,
}

-- What callers were given is the object of the pointer, which is set.
abbrev pub AllSame : Objects → List (Slot × Option ℕ) → Type 0
AllSame σ [] = Unit
AllSame σ ((s, r) ∷ rs) = IsFilled σ s × (r ≡ σ.ptr s) × AllSame σ rs

Leaves-AllSame :
    {t : ℕ} {σ τ : Objects} (rs : List (Slot × Option ℕ))
    → Leaves t σ τ
    → AllSame σ rs
    → AllSame τ rs
Leaves-AllSame [] l h = tt
Leaves-AllSame ((s, r) ∷ rs) l ((o, e), same, h) =
    ((o, l.ptr_kept s o e), same ∙ e ∙ sym (l.ptr_kept s o e), Leaves-AllSame rs l h)

pub record IsOnce (σ : Objects) : Type 0 where
  pub good : (u : ℕ) → Good σ u (σ.place u)
  pub counted : IsCounted σ
  pub same : AllSame σ σ.returned

-- A step of `t` to a place where things are as they should be.
moves-Good :
    (t : ℕ) (p : Place) (σ τ : Objects)
    → ((u : ℕ) → Good σ u (σ.place u))
    → Leaves t σ τ
    → Good τ t p
    → (u : ℕ) → Good τ u (go_to t p σ.place u)
moves-Good t p σ τ g l h u = elim (Bool-cases (u == t)) [
  | inl e ↦ let same : t ≡ u = ground arith in rw e (subst (λ v. Good τ v p) same h)
  | inr e ↦ rw e (Leaves-Good u (σ.place u) e l (g u))
]

-- What holds of a thread by where it is known to stand.
stands : (σ : Objects) (t : ℕ) (p : Place) → IsOnce σ → σ.place t ≡ p → Good σ t p
stands σ t p h e = subst (Good σ t) e (h.good t)

goes-IsOnce :
    (t : ℕ) (s : Slot) (a b : At) (p : Place) (σ τ : Objects)
    → IsOnce σ
    → GoodAt σ t s a
    → Inner t s σ a b τ
    → Good τ t p
    → IsOnce (record τ { place = go_to t p σ.place })
goes-IsOnce t s a b p σ τ h g i good = record {
  good = moves-Good t p σ τ h.good (Inner-Leaves i g) good;
  counted = Inner-IsCounted i g h.counted;
  same =
      subst (AllSame τ) (sym (Inner-returned i))
        (Leaves-AllSame σ.returned (Inner-Leaves i g) h.same);
}

stays-IsOnce :
    (t : ℕ) (p : Place) (σ : Objects)
    → IsOnce σ
    → Good σ t p
    → IsOnce (record σ { place = go_to t p σ.place })
stays-IsOnce t p σ h good = record {
  good = moves-Good t p σ σ h.good (same-Leaves t σ) good;
  counted = h.counted;
  same = h.same;
}

Step-IsOnce : {t : ℕ} {σ τ : Objects} → Step t σ τ → IsOnce σ → IsOnce τ
Step-IsOnce {t} {σ} (enters s e) h = stays-IsOnce t (calls s entered) σ h tt
Step-IsOnce {t} {σ} (goes s a b τ e i) h =
    let g = stands σ t (calls s a) h e in
    goes-IsOnce t s a b (calls s b) σ τ h g i (Inner-GoodAt i g)
Step-IsOnce {t} {σ} (asks_users s e needs) h =
    let (owned, null) = stands σ t (calls s making) h e in
    stays-IsOnce t (asks s entered) σ h (needs, owned, null, tt)
Step-IsOnce {t} {σ} (goes_asking s a b τ e i) h =
    let (needs, owned, null, g) = stands σ t (asks s a) h e in
    let (owner, ptr) = Inner-other s (asks_other s needs) i in
    goes-IsOnce t user_db a b (asks s b) σ τ h g i
      (needs, owner ∙ owned, ptr ∙ null, Inner-GoodAt i g)
Step-IsOnce {t} {σ} (told s e) h = stays-IsOnce t (asked s) σ h (stands σ t (asks s leaving) h e)
Step-IsOnce {t} {σ} (makes_with s o e) h =
    let (needs, owned, null, set) = stands σ t (asked s) h e in
    let l = makes-Leaves t σ s o σ.place owned null in
    record {
      good =
          moves-Good t (calls s unlocking) σ
            (record σ { ptr = at_slot s (some o) σ.ptr; made = at_slot s (suc (σ.made s)) σ.made })
            h.good l (owned, (o, set-at_slot s (some o) σ.ptr));
      counted = makes-IsCounted σ s o null h.counted;
      same = Leaves-AllSame σ.returned l h.same;
    }
Step-IsOnce {t} {σ} (returns s e) h = record {
  good = moves-Good t outside σ σ h.good (same-Leaves t σ) tt;
  counted = h.counted;
  same = (stands σ t (calls s leaving) h e, refl, h.same);
}

Reach-keeps : {σ τ : Objects} → Reach σ τ → IsOnce σ → IsOnce τ
Reach-keeps here h = h
Reach-keeps (next t r s) h = Step-IsOnce s (Reach-keeps r h)

new_threads-IsOnce : IsOnce new_threads
new_threads-IsOnce = record { good = λ u. tt; counted = λ s. refl; same = tt }

-- From the start, whatever the threads do: a thread between `lock` and `unlock` of a mutex is the one
-- that holds it, and one that makes an object finds the pointer still null; for each pointer as many objects were
-- made as it holds, which is at most one; and all that was returned to callers is the object that the
-- pointer holds.
pub Reach-IsOnce : {σ : Objects} → Reach new_threads σ → IsOnce σ
Reach-IsOnce r = Reach-keeps r new_threads-IsOnce
