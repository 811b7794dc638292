-- ===== src/Crypto/Singleton.antt =====
-- src/interfaces/crypto/singleton.cpp: the one object, which the first caller makes from the
-- environment.
use clean_architecture_cpp.Base.{
  ℕ, ◌^◌, ◌==◌, ltb, Bool, true, false, if◌then◌else◌, Option, none, some, [], ◌∷◌, Text, codes,
  is_empty, Throws, ret, throw, out_of_range, invalid_argument, never_returns, ◌>>=◌,
}
use clean_architecture_cpp.Base.Integer.{skip_space, leading_digits}
use clean_architecture_cpp.Crypto.{MainCrypto, make_crypto}
use clean_architecture_cpp.Startup.Numbers.{saturate_unsigned, magnitude, to_uint}
use clean_architecture_cpp.Utils.Env.{Environ, get_env}

abbrev pub stoul_of : Bool → Text → Throws ℕ
stoul_of minus s =
    if is_empty (leading_digits s)
    then throw invalid_argument
    else if ltb (magnitude s) (2 ^ 64)
    then ret (saturate_unsigned minus (magnitude s))
    else throw out_of_range

abbrev pub stoul_sign : Text → Throws ℕ
stoul_sign [] = throw invalid_argument
stoul_sign (c ∷ s) =
    if c == b'-'
    then stoul_of true s
    else if c == b'+'
    then stoul_of false s
    else stoul_of false (c ∷ s)

-- `std::stoul`
unfoldable pub stoul : Text → Throws ℕ
unfolding leading_digits skip_space
stoul s = stoul_sign (skip_space s)

-- A cost from the environment, as the `uint` that the constructor takes.
unfoldable pub cost : Text → Text → Environ → Throws ℕ
unfolding stoul to_uint get_env
cost key def env = stoul (get_env key def env) >>= λ n. ret (to_uint n)

-- The global pointer and its mutex.
pub record CryptoState : Type 0 where
  pub crypto : Option MainCrypto
  pub locked : Bool

abbrev pub new_state : CryptoState
new_state = record { crypto = none; locked = false }

module _ (encodedlen : ℕ → ℕ → ℕ → ℕ → ℕ → ℕ) where
  -- The arguments, read in their order.
  unfoldable pub from_env : Environ → Throws MainCrypto
  unfolding cost make_crypto
  from_env env = do
    iteration_cost ← cost (codes "ARGONID_ITERATION_COST") (codes "2") env
    memory_cost ← cost (codes "ARGONID_MEMORY_COST") (codes "16348") env
    parallelism ← cost (codes "ARGONID_PARALLELISM") (codes "1") env
    hash_len ← cost (codes "ARGONID_HASH_LEN") (codes "32") env
    ret (
        make_crypto encodedlen iteration_cost memory_cost parallelism hash_len
          (get_env (codes "ARGONID_SECRET") (codes "super-secret-password") env))

  -- What the critical section leaves: an exception passes by `unlock`.
  abbrev pub made_crypto : Throws MainCrypto → Throws MainCrypto × CryptoState
  made_crypto (ret c) = (ret c, record { crypto = some c; locked = false })
  made_crypto (throw e) = (throw e, record { crypto = none; locked = true })

  abbrev pub locked_crypto : Environ → Bool → Throws MainCrypto × CryptoState
  locked_crypto env true = (throw never_returns, record { crypto = none; locked = true })
  locked_crypto env false = made_crypto (from_env env)

  abbrev pub crypto_or_made : Environ → Bool → Option MainCrypto → Throws MainCrypto × CryptoState
  crypto_or_made env locked (some c) = (ret c, record { crypto = some c; locked = locked })
  crypto_or_made env locked none = locked_crypto env locked

  -- `get_crypto`
  unfoldable pub get_crypto : Environ → CryptoState → Throws MainCrypto × CryptoState
  unfolding from_env
  get_crypto env s = crypto_or_made env s.locked s.crypto
