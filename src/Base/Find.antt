-- ===== src/Base/Find.antt =====
-- `find` and `substr` of `std::string`, and the pieces between the separators of a text.
use Prim.Native.Nat.{ℕ, zero, suc, ◌+◌, ◌-◌, ◌≤◌, ◌<◌}
use mathlib.Core.Path.{◌≡◌, refl, sym, ap, ◌∙◌}
use mathlib.Core.Bool.{Bool, true, false}
use mathlib.Core.Option
use mathlib.Core.Option.{Option, none, some}
use mathlib.Core.Logic.{◌⊎◌, inl, inr}
use mathlib.Core.List.{List, [], ◌∷◌, ◌++◌}
use native.Mathlib.Omega.{arith}
use native.Mathlib.Nat.{zero-add, suc-add}
use clean_architecture_cpp.Base.Tests.{
  ◌==◌, ==_refl, ltb, if◌then◌else◌, Bool-cases, Option-cases, le→ltb_false, lt→ltb,
}
use clean_architecture_cpp.Base.Lists.{
  length, length-drop, take, take-length, length-append, take-append, drop, drop-append, All,
}
use clean_architecture_cpp.Base.Bytes.{Text}
use clean_architecture_cpp.Base.Exceptions.{Throws, ret, throw, out_of_range}

unfoldable pub index_of : ℕ → Text → Option ℕ
index_of c [] = none
index_of c (x ∷ s) = if x == c then some 0 else Option.map suc (index_of c s)

-- `s.find(c, pos)`; `none` is `npos`.
unfoldable pub find : Text → ℕ → ℕ → Option ℕ
unfolding index_of
find s c pos = Option.map (λ i. pos + i) (index_of c (drop pos s))

-- `s.substr(pos, n)`
unfoldable pub substr : Text → ℕ → ℕ → Throws Text
substr s pos n = if ltb (length s) pos then throw out_of_range else ret (take n (drop pos s))

-- `s.substr(pos)`
unfoldable pub substr_from : Text → ℕ → Throws Text
substr_from s pos = if ltb (length s) pos then throw out_of_range else ret (drop pos s)

unfoldable pub starts_with : Text → Text → Bool
starts_with s [] = true
starts_with [] (b ∷ p) = false
starts_with (a ∷ s) (b ∷ p) = if a == b then starts_with s p else false

abbrev pub add_front : ℕ → List Text → List Text
add_front x [] = (x ∷ []) ∷ []
add_front x (p ∷ ps) = (x ∷ p) ∷ ps

-- The pieces of a text between its separators, of which there is always one.
unfoldable pub split : ℕ → Text → List Text
split c [] = [] ∷ []
split c (x ∷ s) = if x == c then [] ∷ split c s else add_front x (split c s)

pub split_of_none : (c : ℕ) (s : Text) → index_of c s ≡ none → split c s ≡ s ∷ []
unfolding index_of split
split_of_none c [] h = refl
split_of_none c (x ∷ s) h = elim (Bool-cases (x == c)) [
  | inl e ↦ absurd (ground arith)
  | inr e ↦ elim (Option-cases (index_of c s)) [
    | inl o ↦ rw (e, split_of_none c s o)
    | inr (i, o) ↦ absurd (ground arith)
  ]
]

pub split_of_some :
    (c : ℕ) (s : Text) (i : ℕ)
    → index_of c s ≡ some i
    → (split c s ≡ take i s ∷ split c (drop (suc i) s)) × (i < length s)
unfolding index_of split
split_of_some c [] i h = absurd (cc)
split_of_some c (x ∷ s) zero h = elim (Bool-cases (x == c)) [
  | inl e ↦ (rw e, omega arith)
  | inr e ↦ elim (Option-cases (index_of c s)) [
    | inl o ↦ absurd (ground arith)
    | inr (j, o) ↦ absurd (ground arith)
  ]
]
split_of_some c (x ∷ s) (suc i) h = elim (Bool-cases (x == c)) [
  | inl e ↦ absurd (ground arith)
  | inr e ↦
      let o : index_of c s ≡ some i = ground arith in
      let (p, q) = split_of_some c s i o in (rw (e, p), omega (arith, q))
]

drop-nil {ℓ} : {A : Type ℓ} (n : ℕ) → drop {A = A} n [] ≡ []
drop-nil zero = refl
drop-nil (suc n) = refl

drop_past {ℓ} : {A : Type ℓ} (n : ℕ) (xs : List A) → length xs ≤ n → drop n xs ≡ []
drop_past zero [] h = refl
drop_past zero (x ∷ xs) h = absurd (omega arith)
drop_past (suc n) [] h = refl
drop_past (suc n) (x ∷ xs) h = drop_past n xs (omega arith)

pub drop-drop {ℓ} : {A : Type ℓ} (m n : ℕ) (xs : List A) → drop n (drop m xs) ≡ drop (m + n) xs
drop-drop zero n xs = rw zero-add
drop-drop (suc m) n [] = rw (drop-nil n, drop-nil (suc m + n))
drop-drop (suc m) n (x ∷ xs) = rw (suc-add, drop-drop m n xs)

module _ (c : ℕ) (s : Text) (start : ℕ) where
  -- There is no separator from `start` on: the rest is one piece.
  abbrev pub LastPiece : Type 0
  LastPiece =
      (find s c start ≡ none)
      × (substr_from s start ≡ ret (drop start s))
      × (split c (drop start s) ≡ drop start s ∷ [])

  -- The next separator from `start` on stands at `end`, behind the piece `p`.
  abbrev pub NextPiece : ℕ → Text → Type 0
  NextPiece end p =
      (find s c start ≡ some end)
      × (substr s start (end - start) ≡ ret p)
      × (split c (drop start s) ≡ p ∷ split c (drop (end + 1) s))
      × (start ≤ end)
      × (end < length s)

pub find_cases :
    (c : ℕ) (s : Text) (start : ℕ)
    → start ≤ length s
    → LastPiece c s start ⊎ ((end : ℕ) × (p : Text) × NextPiece c s start end p)
unfolding find substr substr_from
find_cases c s start h = elim (Option-cases (index_of c (drop start s))) [
  | inl e ↦ inl (rw e, rw (le→ltb_false (length s) start h), split_of_none c (drop start s) e)
  | inr (i, e) ↦
      let (cut, below) = split_of_some c (drop start s) i e in
      let within : start + i < length s = omega (arith, length-drop start s) in
      let piece = take i (drop start s) in
      let same : start + suc i ≡ start + i + 1 = omega arith in
      let found : start + i - start ≡ i = omega arith in
      inr (
        start + i,
        piece,
        (
          rw e,
          rw (le→ltb_false (length s) start h) (ap (λ k. ret (take k (drop start s))) found),
          cut ∙ ap (λ t. piece ∷ split c t) (drop-drop start (suc i) s ∙ ap (λ k. drop k s) same),
          omega arith,
          within,
        ),
      )
]

pub substr_whole : (s : Text) → substr s 0 (length s) ≡ ret s
unfolding substr
substr_whole s = rw (le→ltb_false (length s) 0 (omega arith)) (ap ret (take-length s))

-- A text without the byte `c`.
abbrev pub Lacks : ℕ → Text → Type 0
Lacks c s = All (λ x. (x == c) ≡ false) s

pub index_of_of_Lacks : (c : ℕ) (s : Text) → Lacks c s → index_of c s ≡ none
unfolding index_of
index_of_of_Lacks c [] h = refl
index_of_of_Lacks c (x ∷ s) (p, h) = rw (p, index_of_of_Lacks c s h)

pub index_of-append : (c : ℕ) (s t : Text) → Lacks c s → index_of c (s ++ c ∷ t) ≡ some (length s)
unfolding index_of
index_of-append c [] t h = rw (==_refl c)
index_of-append c (x ∷ s) t (p, h) = rw (p, index_of-append c s t h)

module _ (c : ℕ) (s : Text) (start : ℕ) (le : start ≤ length s) where
  -- A rest without the separator is one piece.
  pub last_piece :
      (p : Text)
      → drop start s ≡ p
      → Lacks c p
      → (find s c start ≡ none) × (substr_from s start ≡ ret p)
  unfolding find substr_from
  last_piece p e h =
      (rw (e, index_of_of_Lacks c p h), rw (le→ltb_false (length s) start le) (ap ret e))

  -- A rest that begins with a piece and the separator is cut there.
  pub next_piece :
      (p rest : Text)
      → drop start s ≡ p ++ c ∷ rest
      → Lacks c p
      → (find s c start ≡ some (start + length p))
        × (substr s start (start + length p - start) ≡ ret p)
  unfolding find substr
  next_piece p rest e h =
      let same : start + length p - start ≡ length p = omega arith in
      (
        rw (e, index_of-append c p rest h),
        rw (le→ltb_false (length s) start le, same, e) (ap ret (take-append p (c ∷ rest))),
      )

pub drop-append_le {ℓ} :
    {A : Type ℓ} (start : ℕ) (s p rest : List A)
    → drop start s ≡ p ++ rest
    → drop (start + length p) s ≡ rest
drop-append_le start s p rest e =
    sym (drop-drop start (length p) s) ∙ ap (drop (length p)) e ∙ drop-append p rest

pub substr_from_at :
    (s p : Text) (start : ℕ) → start ≤ length s → drop start s ≡ p → substr_from s start ≡ ret p
unfolding substr_from
substr_from_at s p start le e = rw (le→ltb_false (length s) start le) (ap ret e)

-- Cutting a text at its first separator.
module _ (c : ℕ) (k v : Text) (h : Lacks c k) where
  pub find_first : find (k ++ c ∷ v) c 0 ≡ some (length k)
  unfolding find
  find_first = rw (index_of-append c k v h) (ap some (omega arith))

  pub substr_first : substr (k ++ c ∷ v) 0 (length k) ≡ ret k
  unfolding substr
  substr_first =
      rw (le→ltb_false (length (k ++ c ∷ v)) 0 (omega arith)) (ap ret (take-append k (c ∷ v)))

  pub substr_from_first : substr_from (k ++ c ∷ v) (length k + 1) ≡ ret v
  substr_from_first =
      substr_from_at (k ++ c ∷ v) v (length k + 1) (omega (arith, length-append k (c ∷ v)))
        (sym (drop-drop (length k) 1 (k ++ c ∷ v)) ∙ ap (drop 1) (drop-append k (c ∷ v)))

-- Past the end of a text there is no separator, and `substr` throws.
pub past_end :
    (c : ℕ) (s : Text) (start : ℕ)
    → length s < start
    → (find s c start ≡ none) × (substr_from s start ≡ throw out_of_range)
unfolding find substr_from index_of
past_end c s start h = (rw (drop_past start s (omega arith)), rw (lt→ltb (length s) start h))
