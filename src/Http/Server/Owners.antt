-- ===== src/Http/Server/Owners.antt =====
-- The owners of the operations that are under way, as lists of numbers.
use clean_architecture_cpp.Base.{
  ℕ, ◌<◌, ◌==◌, ◌≡◌, refl, ◌∙◌, ap, true, false, ◌||◌, Bool-cases, inl, inr, List, [], ◌∷◌, ◌++◌,
  All, arith,
}
use clean_architecture_cpp.Http.Server.{Operation, has, erase, close, close_all}

abbrev pub owners : List Operation → List ℕ
owners [] = []
owners (op ∷ ops) = op.owner ∷ owners ops

-- No number is there twice.
abbrev pub Distinct : List ℕ → Type 0
Distinct [] = Unit
Distinct (i ∷ is) = (has i is ≡ false) × Distinct is

pub owners-append : (xs ys : List Operation) → owners (xs ++ ys) ≡ owners xs ++ owners ys
owners-append [] ys = refl
owners-append (op ∷ xs) ys = ap (λ l. op.owner ∷ l) (owners-append xs ys)

pub owners-close : (id : ℕ) (ops : List Operation) → owners (close id ops) ≡ owners ops
unfolding close
owners-close id [] = refl
owners-close id (op ∷ ops) = elim (Bool-cases (op.owner == id)) [
  | inl e ↦ rw e (ap (λ l. op.owner ∷ l) (owners-close id ops))
  | inr e ↦ rw e (ap (λ l. op.owner ∷ l) (owners-close id ops))
]

pub owners-close_all :
    (ids : List ℕ) (ops : List Operation) → owners (close_all ids ops) ≡ owners ops
unfolding close_all
owners-close_all [] ops = refl
owners-close_all (id ∷ ids) ops = owners-close_all ids (close id ops) ∙ owners-close id ops

pub has-append : (i : ℕ) (xs ys : List ℕ) → has i (xs ++ ys) ≡ has i xs || has i ys
unfolding has
has-append i [] ys = refl
has-append i (x ∷ xs) ys = ground (arith, has-append i xs ys)

pub has-erase : (i j : ℕ) (ids : List ℕ) → (j == i) ≡ false → has j (erase i ids) ≡ has j ids
unfolding has erase
has-erase i j [] h = refl
has-erase i j (x ∷ ids) h = ground (arith, has-erase i j ids h)

-- Taking one number out of a list.
pub Distinct-middle :
    (xs ys : List ℕ) (i : ℕ)
    → Distinct (xs ++ i ∷ ys)
    → (has i (xs ++ ys) ≡ false) × Distinct (xs ++ ys)
unfolding has
Distinct-middle [] ys i d = d
Distinct-middle (x ∷ xs) ys i (h, d) =
    let (a, b) = Distinct-middle xs ys i d in
    let e = has-append x xs (i ∷ ys) in
    let f = has-append x xs ys in (ground (arith, h, a, e, f), (ground (arith, h, e, f), b))

pub All-middle {ℓ κ} :
    {A : Type ℓ} (P : A → Type κ) (xs ys : List A) (a : A)
    → All P (xs ++ a ∷ ys)
    → P a × All P (xs ++ ys)
All-middle P [] ys a h = h
All-middle P (x ∷ xs) ys a (p, h) = let (q, k) = All-middle P xs ys a h in (q, (p, k))

pub has_of_given : (n : ℕ) (ids : List ℕ) → All (λ i. i < n) ids → has n ids ≡ false
unfolding has
has_of_given n [] h = refl
has_of_given n (i ∷ ids) (p, h) = ground (arith, p, has_of_given n ids h)

pub All-map {ℓ κ} :
    {A : Type ℓ} (P Q : A → Type κ) (xs : List A) → ((a : A) → P a → Q a) → All P xs → All Q xs
All-map P Q [] f h = tt
All-map P Q (x ∷ xs) f (p, h) = (f x p, All-map P Q xs f h)

-- What was alive stays alive when another connection is stopped.
pub alive-erase :
    (id : ℕ) (ids live : List ℕ)
    → has id ids ≡ false
    → All (λ i. has i live ≡ true) ids
    → All (λ i. has i (erase id live) ≡ true) ids
unfolding has
alive-erase id [] live n h = tt
alive-erase id (i ∷ ids) live n (p, h) =
    (has-erase id i live (ground arith) ∙ p, alive-erase id ids live (ground arith) h)

pub alive-start :
    (id : ℕ) (ids live : List ℕ)
    → All (λ i. has i live ≡ true) ids
    → All (λ i. has i (id ∷ live) ≡ true) ids
unfolding has
alive-start id ids live h =
    All-map (λ i. has i live ≡ true) (λ i. has i (id ∷ live) ≡ true) ids (λ i p. ground arith) h
