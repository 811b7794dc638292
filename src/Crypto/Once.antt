-- ===== src/Crypto/Once.antt =====
-- singleton.cpp: how often the object is made, and what a setting that is no number does.
use clean_architecture_cpp.Base.{
  ℕ, ◌≡◌, refl, ◌==◌, false, ◌∷◌, Text, codes, ret, throw, invalid_argument, never_returns,
}
use clean_architecture_cpp.Base.Decimal.{is_decimal}
use clean_architecture_cpp.Base.Integer.{is_space, skip_space, leading_digits}
use clean_architecture_cpp.Crypto.{MainCrypto}
use clean_architecture_cpp.Crypto.Singleton.{cost, stoul, from_env, new_state, get_crypto}
use clean_architecture_cpp.Utils.Env.{Environ, get_env}

cost_of_word :
    (key def : Text) (env : Environ) (c : ℕ) (s : Text)
    → get_env key def env ≡ c ∷ s
    → is_space c ≡ false
    → (c == b'-') ≡ false
    → (c == b'+') ≡ false
    → is_decimal c ≡ false
    → cost key def env ≡ throw invalid_argument
unfolding cost stoul skip_space leading_digits
cost_of_word key def env c s e sp m p d = rw (e, sp, m, p, d) refl

module _ (encodedlen : ℕ → ℕ → ℕ → ℕ → ℕ → ℕ) where
  -- Where the settings are numbers, the first call makes the object of them, and every later call,
  -- whatever the environment is by then, gives the same object and changes nothing.
  pub get_crypto-get_crypto :
      (env later : Environ) (c : MainCrypto)
      → from_env encodedlen env ≡ ret c
      → let (first, s) = get_crypto encodedlen env new_state in
        (first ≡ ret c) × (get_crypto encodedlen later s ≡ (ret c, s))
  unfolding get_crypto
  get_crypto-get_crypto env later c e = rw e (refl, refl)

  -- Where ARGONID_ITERATION_COST is a text that does not begin with white space, a sign or a digit,
  -- the first call throws, and every later call, whatever the environment is by then, waits for ever
  -- at the mutex that the first one left locked.
  pub get_crypto_stays_locked :
      (env later : Environ) (c : ℕ) (s : Text)
      → get_env (codes "ARGONID_ITERATION_COST") (codes "2") env ≡ c ∷ s
      → is_space c ≡ false
      → (c == b'-') ≡ false
      → (c == b'+') ≡ false
      → is_decimal c ≡ false
      → let (first, left) = get_crypto encodedlen env new_state in
        (first ≡ throw invalid_argument)
        × (get_crypto encodedlen later left ≡ (throw never_returns, left))
  unfolding get_crypto from_env
  get_crypto_stays_locked env later c s e sp m p d =
      rw (cost_of_word (codes "ARGONID_ITERATION_COST") (codes "2") env c s e sp m p d) (refl, refl)
