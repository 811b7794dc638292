-- ===== src/UseCases/Singletons/Leaves.antt =====
-- singleton.cpp: what holds of a thread by where it stands, and what the steps of the others leave of it.
use clean_architecture_cpp.Base.{
  ℕ, suc, ◌==◌, ◌≡◌, ◌≢◌, refl, ◌∙◌, sym, ap, inl, inr, true, false, Bool-cases, if◌then◌else◌,
  Option, none, some, arith,
}
use clean_architecture_cpp.UseCases.Singletons.{
  Slot, login_auth, logout_auth, get_user_auth, register_auth, user_db, index, needs_users, At,
  entered, waiting, checking, making, unlocking, leaving, Place, outside, calls, asks, asked,
  Objects, at_slot, Inner, reads_null, reads_made, locks, finds_null, finds_made, makes, unlocks,
}

abbrev pub slot_of : ℕ → Slot
slot_of n =
    if n == 0
    then login_auth
    else if n == 1
    then logout_auth
    else if n == 2
    then get_user_auth
    else if n == 3
    then register_auth
    else user_db

pub slot_of-index : (s : Slot) → slot_of (index s) ≡ s
slot_of-index login_auth = refl
slot_of-index logout_auth = refl
slot_of-index get_user_auth = refl
slot_of-index register_auth = refl
slot_of-index user_db = refl

-- What holds where a thread stands, by the pointers and the mutexes.
abbrev pub IsFilled : Objects → Slot → Type 0
IsFilled σ s = (o : ℕ) × (σ.ptr s ≡ some o)

abbrev pub GoodAt : Objects → ℕ → Slot → At → Type 0
GoodAt σ t s entered = Unit
GoodAt σ t s waiting = Unit
GoodAt σ t s checking = σ.owner s ≡ some t
GoodAt σ t s making = (σ.owner s ≡ some t) × (σ.ptr s ≡ none)
GoodAt σ t s unlocking = (σ.owner s ≡ some t) × IsFilled σ s
GoodAt σ t s leaving = IsFilled σ s

abbrev pub Good : Objects → ℕ → Place → Type 0
Good σ t outside = Unit
Good σ t (calls s a) = GoodAt σ t s a
Good σ t (asks s a) =
    (needs_users s ≡ true) × (σ.owner s ≡ some t) × (σ.ptr s ≡ none) × GoodAt σ t user_db a
Good σ t (asked s) =
    (needs_users s ≡ true) × (σ.owner s ≡ some t) × (σ.ptr s ≡ none) × IsFilled σ user_db

-- What a step of `t` leaves of what the others rely on.
pub record Leaves (t : ℕ) (σ τ : Objects) : Type 0 where
  pub owner_kept : (s : Slot) (u : ℕ) → (u == t) ≡ false → σ.owner s ≡ some u → τ.owner s ≡ some u
  pub ptr_kept : (s : Slot) (o : ℕ) → σ.ptr s ≡ some o → τ.ptr s ≡ some o
  pub null_kept :
      (s : Slot) (u : ℕ) → (u == t) ≡ false → σ.owner s ≡ some u → σ.ptr s ≡ none → τ.ptr s ≡ none

pub Leaves-IsFilled :
    {t : ℕ} {σ τ : Objects} (s : Slot) → Leaves t σ τ → IsFilled σ s → IsFilled τ s
Leaves-IsFilled s l (o, e) = (o, l.ptr_kept s o e)

pub Leaves-GoodAt :
    {t : ℕ} {σ τ : Objects} (u : ℕ) (s : Slot) (a : At)
    → (u == t) ≡ false
    → Leaves t σ τ
    → GoodAt σ u s a
    → GoodAt τ u s a
Leaves-GoodAt u s entered n l g = tt
Leaves-GoodAt u s waiting n l g = tt
Leaves-GoodAt u s checking n l g = l.owner_kept s u n g
Leaves-GoodAt u s making n l (owned, null) =
    (l.owner_kept s u n owned, l.null_kept s u n owned null)
Leaves-GoodAt u s unlocking n l (owned, set) = (l.owner_kept s u n owned, Leaves-IsFilled s l set)
Leaves-GoodAt u s leaving n l set = Leaves-IsFilled s l set

pub Leaves-Good :
    {t : ℕ} {σ τ : Objects} (u : ℕ) (p : Place)
    → (u == t) ≡ false
    → Leaves t σ τ
    → Good σ u p
    → Good τ u p
Leaves-Good u outside n l g = tt
Leaves-Good u (calls s a) n l g = Leaves-GoodAt u s a n l g
Leaves-Good u (asks s a) n l (needs, owned, null, g) =
    (needs, l.owner_kept s u n owned, l.null_kept s u n owned null, Leaves-GoodAt u user_db a n l g)
Leaves-Good u (asked s) n l (needs, owned, null, set) =
    (needs, l.owner_kept s u n owned, l.null_kept s u n owned null, Leaves-IsFilled user_db l set)

pub same_slot : (u s : Slot) → (index u == index s) ≡ true → u ≡ s
same_slot u s e =
    let same : index u ≡ index s = ground arith in
    sym (slot_of-index u) ∙ ap slot_of same ∙ slot_of-index s

pub makes-Leaves :
    (t : ℕ) (σ : Objects) (s : Slot) (o : ℕ) (place : ℕ → Place)
    → σ.owner s ≡ some t
    → σ.ptr s ≡ none
    → Leaves t σ (record σ {
      ptr = at_slot s (some o) σ.ptr;
      made = at_slot s (suc (σ.made s)) σ.made;
      place = place;
    })
makes-Leaves t σ s o place owned null = record {
  owner_kept = λ u v n e. e;
  ptr_kept = λ u p e. elim (Bool-cases (index u == index s)) [
    | inl f ↦ let same = same_slot u s f in cc
    | inr f ↦ rw f e
  ];
  null_kept = λ u v n e f. elim (Bool-cases (index u == index s)) [
    | inl g ↦ let same = same_slot u s g in absurd (ground arith)
    | inr g ↦ rw g f
  ];
}

pub owner-Leaves :
    (t : ℕ) (σ : Objects) (s : Slot) (o : Option ℕ)
    → ((u : ℕ) → (u == t) ≡ false → σ.owner s ≢ some u)
    → Leaves t σ (record σ { owner = at_slot s o σ.owner })
owner-Leaves t σ s o free = record {
  owner_kept = λ u v n e. elim (Bool-cases (index u == index s)) [
    | inl f ↦ let same = same_slot u s f in absurd (free v n (ap σ.owner (sym same) ∙ e))
    | inr f ↦ rw f e
  ];
  ptr_kept = λ u p e. e;
  null_kept = λ u v n e f. f;
}

pub same-Leaves : (t : ℕ) (σ : Objects) → Leaves t σ σ
same-Leaves t σ = record {
  owner_kept = λ u v n e. e;
  ptr_kept = λ u p e. e;
  null_kept = λ u v n e f. f;
}

pub Inner-Leaves :
    {t : ℕ} {s : Slot} {σ τ : Objects} {a b : At}
    → Inner t s σ a b τ
    → GoodAt σ t s a
    → Leaves t σ τ
Inner-Leaves {t} {s} {σ} (reads_null e) g = same-Leaves t σ
Inner-Leaves {t} {s} {σ} (reads_made o e) g = same-Leaves t σ
Inner-Leaves {t} {s} {σ} (locks e) g = owner-Leaves t σ s (some t) (λ u n f. cc)
Inner-Leaves {t} {s} {σ} (finds_null e) g = same-Leaves t σ
Inner-Leaves {t} {s} {σ} (finds_made o e) g = same-Leaves t σ
Inner-Leaves {t} {s} {σ} (makes o e) (owned, null) = makes-Leaves t σ s o σ.place owned null
Inner-Leaves {t} {s} {σ} unlocks (owned, set) = owner-Leaves t σ s none (λ u n f. ground arith)

pub set-at_slot : {A : Type 0} (s : Slot) (a : A) (f : Slot → A) → at_slot s a f s ≡ a
set-at_slot s a f = ground arith

pub Inner-GoodAt :
    {t : ℕ} {s : Slot} {σ τ : Objects} {a b : At}
    → Inner t s σ a b τ
    → GoodAt σ t s a
    → GoodAt τ t s b
Inner-GoodAt (reads_null e) g = tt
Inner-GoodAt (reads_made o e) g = (o, e)
Inner-GoodAt {t} {s} {σ} (locks e) g = set-at_slot s (some t) σ.owner
Inner-GoodAt (finds_null e) g = (g, e)
Inner-GoodAt (finds_made o e) g = (g, (o, e))
Inner-GoodAt {t} {s} {σ} (makes o e) (owned, null) = (owned, (o, set-at_slot s (some o) σ.ptr))
Inner-GoodAt unlocks (owned, set) = set

-- The call of `get_user_db` leaves the pointer and the mutex of the object that is being made.
pub asks_other : (s : Slot) → needs_users s ≡ true → (index s == index user_db) ≡ false
asks_other login_auth e = refl
asks_other logout_auth e = refl
asks_other get_user_auth e = refl
asks_other register_auth e = refl
asks_other user_db e = cc

pub Inner-other :
    {t : ℕ} {s : Slot} {σ τ : Objects} {a b : At} (u : Slot)
    → (index u == index s) ≡ false
    → Inner t s σ a b τ
    → (τ.owner u ≡ σ.owner u) × (τ.ptr u ≡ σ.ptr u)
Inner-other u n (reads_null e) = (refl, refl)
Inner-other u n (reads_made o e) = (refl, refl)
Inner-other u n (locks e) = (rw n refl, refl)
Inner-other u n (finds_null e) = (refl, refl)
Inner-other u n (finds_made o e) = (refl, refl)
Inner-other u n (makes o e) = (refl, rw n refl)
Inner-other u n unlocks = (rw n refl, refl)

pub Inner-returned :
    {t : ℕ} {s : Slot} {σ τ : Objects} {a b : At} → Inner t s σ a b τ → τ.returned ≡ σ.returned
Inner-returned (reads_null e) = refl
Inner-returned (reads_made o e) = refl
Inner-returned (locks e) = refl
Inner-returned (finds_null e) = refl
Inner-returned (finds_made o e) = refl
Inner-returned (makes o e) = refl
Inner-returned unlocks = refl

abbrev pub count : Option ℕ → ℕ
count none = 0
count (some o) = 1

abbrev pub IsCounted : Objects → Type 0
IsCounted σ = (s : Slot) → σ.made s ≡ count (σ.ptr s)

pub makes-IsCounted :
    (σ : Objects) (s : Slot) (o : ℕ)
    → σ.ptr s ≡ none
    → IsCounted σ
    → (u : Slot) → at_slot s (suc (σ.made s)) σ.made u ≡ count (at_slot s (some o) σ.ptr u)
makes-IsCounted σ s o null c u = elim (Bool-cases (index u == index s)) [
  | inl e ↦ rw e (rw (c s, null) refl)
  | inr e ↦ rw e (c u)
]

pub Inner-IsCounted :
    {t : ℕ} {s : Slot} {σ τ : Objects} {a b : At}
    → Inner t s σ a b τ
    → GoodAt σ t s a
    → IsCounted σ
    → IsCounted τ
Inner-IsCounted (reads_null e) g c = c
Inner-IsCounted (reads_made o e) g c = c
Inner-IsCounted (locks e) g c = c
Inner-IsCounted (finds_null e) g c = c
Inner-IsCounted (finds_made o e) g c = c
Inner-IsCounted {t} {s} {σ} (makes o e) (owned, null) c = makes-IsCounted σ s o null c
Inner-IsCounted unlocks g c = c
