-- ===== src/Base/Exceptions.antt =====
-- A computation that may end in one of the exceptions of the standard library.
use mathlib.Core.Path.{◌≡◌, refl}

pub data Exception : Type 0 where
  out_of_range invalid_argument : Exception
  -- Not of the source: a loop of the model that had too little fuel.
  out_of_fuel : Exception
  -- Nor are these exceptions: a wait that does not end, and a read through a null pointer.
  never_returns null_pointer : Exception

pub data Throws {ℓ} (A : Type ℓ) : Type ℓ where
  ret : A → Throws A
  throw : Exception → Throws A

infixl 5 ◌>>=◌
abbrev pub ◌>>=◌ {ℓ κ} : {A : Type ℓ} {B : Type κ} → Throws A → (A → Throws B) → Throws B
ret a >>= f = f a
throw e >>= f = throw e

pub >>=-assoc {ℓ κ μ} :
    {A : Type ℓ} {B : Type κ} {C : Type μ} (m : Throws A) (f : A → Throws B) (g : B → Throws C)
    → (m >>= λ a. f a >>= g) ≡ (m >>= f >>= g)
>>=-assoc (ret a) f g = refl
>>=-assoc (throw e) f g = refl
