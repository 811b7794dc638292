-- ===== src/Base/Pieces.antt =====
-- The pieces between the separators of a text tell the text.
use mathlib.Core.Path.{◌≡◌, refl, ap, ◌∙◌}
use mathlib.Core.Bool.{false, ◌&&◌}
use mathlib.Core.Logic.{inl, inr}
use mathlib.Core.List.{List, [], ◌∷◌}
use native.Mathlib.Omega.{arith}
use Prim.Native.Nat.{ℕ}
use clean_architecture_cpp.Base.Tests.{◌==◌, Bool-cases}
use clean_architecture_cpp.Base.Bytes.{Text, text_eq, texts_eq, is_empty}
use clean_architecture_cpp.Base.Find.{split, add_front}

is_empty-add_front : (x : ℕ) (ps : List Text) → is_empty (add_front x ps) ≡ false
is_empty-add_front x [] = refl
is_empty-add_front x (p ∷ ps) = refl

is_empty-split : (c : ℕ) (s : Text) → is_empty (split c s) ≡ false
unfolding split
is_empty-split c [] = refl
is_empty-split c (x ∷ s) = elim (Bool-cases (x == c)) [
  | inl e ↦ rw e
  | inr e ↦ rw e (is_empty-add_front x (split c s))
]

texts_eq-add_front :
    (x y : ℕ) (ps qs : List Text)
    → is_empty ps ≡ false
    → is_empty qs ≡ false
    → texts_eq (add_front x ps) (add_front y qs) ≡ (x == y) && texts_eq ps qs
unfolding texts_eq text_eq
texts_eq-add_front x y [] qs h k = absurd (cc)
texts_eq-add_front x y (p ∷ ps) [] h k = absurd (cc)
texts_eq-add_front x y (p ∷ ps) (q ∷ qs) h k = ground arith

-- A first piece that is empty is not one with a byte in front.
texts_eq-nil-add_front : (y : ℕ) (ps qs : List Text) → texts_eq ([] ∷ ps) (add_front y qs) ≡ false
unfolding texts_eq text_eq
texts_eq-nil-add_front y ps [] = refl
texts_eq-nil-add_front y ps (q ∷ qs) = refl

texts_eq-add_front-nil : (x : ℕ) (ps qs : List Text) → texts_eq (add_front x ps) ([] ∷ qs) ≡ false
unfolding texts_eq text_eq
texts_eq-add_front-nil x [] qs = refl
texts_eq-add_front-nil x (p ∷ ps) qs = refl

texts_eq-nil : (ps : List Text) → is_empty ps ≡ false → texts_eq [] ps ≡ false
unfolding texts_eq
texts_eq-nil [] h = absurd (cc)
texts_eq-nil (p ∷ ps) h = refl

nil-texts_eq : (ps : List Text) → is_empty ps ≡ false → texts_eq ps [] ≡ false
unfolding texts_eq
nil-texts_eq [] h = absurd (cc)
nil-texts_eq (p ∷ ps) h = refl

-- Two texts have the same pieces exactly if they are the same.
pub texts_eq-split : (c : ℕ) (s t : Text) → texts_eq (split c s) (split c t) ≡ text_eq s t
unfolding split texts_eq text_eq
texts_eq-split c [] [] = refl
texts_eq-split c [] (y ∷ t) = elim (Bool-cases (y == c)) [
  | inl e ↦ rw e (texts_eq-nil (split c t) (is_empty-split c t))
  | inr e ↦ rw e (texts_eq-nil-add_front y [] (split c t))
]
texts_eq-split c (x ∷ s) [] = elim (Bool-cases (x == c)) [
  | inl e ↦ rw e (nil-texts_eq (split c s) (is_empty-split c s))
  | inr e ↦ rw e (texts_eq-add_front-nil x (split c s) [])
]
texts_eq-split c (x ∷ s) (y ∷ t) = elim (Bool-cases (x == c)) [
  | inl e ↦ elim (Bool-cases (y == c)) [
    | inl f ↦ rw (e, f) (ground (arith, texts_eq-split c s t))
    | inr f ↦ rw (e, f) (texts_eq-nil-add_front y (split c s) (split c t) ∙ (ground arith))
  ]
  | inr e ↦ elim (Bool-cases (y == c)) [
    | inl f ↦ rw (e, f) (texts_eq-add_front-nil x (split c s) (split c t) ∙ (ground arith))
    | inr f ↦
        rw (e, f)
          (texts_eq-add_front x y (split c s) (split c t) (is_empty-split c s) (is_empty-split c t)
            ∙ ap (λ b. (x == y) && b) (texts_eq-split c s t))
  ]
]
