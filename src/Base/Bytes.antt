-- ===== src/Base/Bytes.antt =====
-- `std::string` as its bytes, with the members of the standard class that the program uses.
use Prim.Native.Nat.{ℕ, ◌≤◌}
use Prim.Native.Char.{code}
use Prim.Native.String.{String}
use mathlib.Core.Path.{◌≡◌, refl, ap₂}
use mathlib.Core.Logic.{◌↔◌}
use mathlib.Core.Bool.{Bool, true, false, ◌&&◌}
use mathlib.Core.List.{List, [], ◌∷◌}
use native.Mathlib.Omega.{arith}
use clean_architecture_cpp.Base.Lists.{length}
use clean_architecture_cpp.Base.Tests.{◌==◌, &&-true, ==_refl}

abbrev pub Text : Type 0
Text = List ℕ

abbrev pub codes : String → Text
codes String.[] = []
codes (String.◌∷◌ c s) = code c ∷ codes s

abbrev pub is_empty {ℓ} : {A : Type ℓ} → List A → Bool
is_empty [] = true
is_empty (c ∷ s) = false

pub is_empty_of_le {ℓ} : {A : Type ℓ} (xs : List A) → 1 ≤ length xs → is_empty xs ≡ false
is_empty_of_le [] h = absurd (omega arith)
is_empty_of_le (x ∷ xs) h = refl

unfoldable pub text_eq : Text → Text → Bool
text_eq [] [] = true
text_eq (a ∷ s) (b ∷ t) = a == b && text_eq s t
text_eq _ _ = false

pub text_eq→eq : (s t : Text) → text_eq s t ≡ true → s ≡ t
unfolding text_eq
text_eq→eq [] [] h = refl
text_eq→eq (a ∷ s) (b ∷ t) h =
    let (p, q) = &&-true (a == b) (text_eq s t) h in
    ap₂ {C = Text} ◌∷◌ (ground arith) (text_eq→eq s t q)
text_eq→eq [] (b ∷ t) h = cc
text_eq→eq (a ∷ s) [] h = cc

pub text_eq_refl : (s : Text) → text_eq s s ≡ true
unfolding text_eq
text_eq_refl [] = refl
text_eq_refl (a ∷ s) = rw (==_refl a, text_eq_refl s)

pub text_eq_iff : (s t : Text) → (text_eq s t ≡ true) ↔ (s ≡ t)
text_eq_iff s t = (text_eq→eq s t, λ e. rw (← e) (text_eq_refl s))

unfoldable pub texts_eq : List Text → List Text → Bool
texts_eq [] [] = true
texts_eq (s ∷ ss) (t ∷ ts) = text_eq s t && texts_eq ss ts
texts_eq _ _ = false
