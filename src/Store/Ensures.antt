-- ===== src/Store/Ensures.antt =====
-- What holds of calls of the store and of the database, if they return.
use clean_architecture_cpp.Base.{◌≡◌, Bool, true, false}
use clean_architecture_cpp.Store.{Run, ran, waits, crashes, ◌>>=◌}

abbrev pub Ensures : {A S : Type 0} → (A → S → Type 0) → Run A S → Type 0
Ensures P (ran a s) = P a s
Ensures P waits = Unit
Ensures P crashes = Unit

pub Ensures-bind :
    {A B S : Type 0} (P : A → S → Type 0) (Q : B → S → Type 0) (m : Run A S) (f : A → S → Run B S)
    → Ensures P m
    → ((a : A) (s : S) → P a s → Ensures Q (f a s))
    → Ensures Q (m >>= f)
Ensures-bind P Q (ran a s) f h k = k a s h
Ensures-bind P Q waits f h k = tt
Ensures-bind P Q crashes f h k = tt

pub Ensures-weaken :
    {A S : Type 0} (P Q : A → S → Type 0) (m : Run A S)
    → Ensures P m
    → ((a : A) (s : S) → P a s → Q a s)
    → Ensures Q m
Ensures-weaken P Q (ran a s) h k = k a s h
Ensures-weaken P Q waits h k = tt
Ensures-weaken P Q crashes h k = tt

pub Ensures-elim :
    {A S : Type 0} (P : A → S → Type 0) (b : Bool) (m n : Run A S)
    → Ensures P m
    → Ensures P n
    → Ensures P (elim b [ true ↦ m | false ↦ n ])
Ensures-elim P true m n h k = h
Ensures-elim P false m n h k = k

-- A call of which nothing is claimed.
pub Ensures-any : {A S : Type 0} (m : Run A S) → Ensures (λ a s. Unit) m
Ensures-any (ran a s) = tt
Ensures-any waits = tt
Ensures-any crashes = tt

-- A call that neither waits nor crashes.
abbrev pub Returns : {A S : Type 0} → Run A S → Type 0
Returns (ran a s) = Unit
Returns waits = ⊥
Returns crashes = ⊥

pub Returns-ran : {A S : Type 0} (m : Run A S) (a : A) (s : S) → m ≡ ran a s → Returns m
Returns-ran m a s e = rw e tt

-- What holds of the first call's result may be used for the rest.
pub Returns-bind :
    {A B S : Type 0} (P : A → S → Type 0) (m : Run A S) (f : A → S → Run B S)
    → Returns m
    → Ensures P m
    → ((a : A) (s : S) → P a s → Returns (f a s))
    → Returns (m >>= f)
Returns-bind P (ran a s) f r h k = k a s h
Returns-bind P waits f r h k = absurd r
Returns-bind P crashes f r h k = absurd r

pub Returns-elim :
    {A S : Type 0} (b : Bool) (m n : Run A S)
    → Returns m
    → Returns n
    → Returns (elim b [ true ↦ m | false ↦ n ])
Returns-elim true m n h k = h
Returns-elim false m n h k = k
