-- ===== src/Crypto/UserCrypto.antt =====
-- `UserCrypto` of src/entities/user/factory.hpp: the object of the process under the user entity, in
-- functions that are `noexcept`.
use clean_architecture_cpp.Base.{
  ℕ, ◌≡◌, refl, ap, subst, ◌==◌, Bool, true, false, Option, none, some, ◌∷◌, Text, codes, Throws,
  ret, throw, invalid_argument, never_returns, out_of_range, out_of_fuel, null_pointer,
}
use clean_architecture_cpp.Base.Decimal.{is_decimal}
use clean_architecture_cpp.Base.Integer.{is_space}
use clean_architecture_cpp.Entities.Log.{Expected, value}
use clean_architecture_cpp.Entities.User.{Crypto, IsReturning}
use clean_architecture_cpp.Crypto.{ErrorCode, MainCrypto, hash_impl, verify_impl}
use clean_architecture_cpp.Crypto.Laws.{IsArgon2, verify_impl-hash_impl}
use clean_architecture_cpp.Crypto.Singleton.{from_env, CryptoState, new_state, get_crypto}
use clean_architecture_cpp.Crypto.Once.{get_crypto_stays_locked}
use clean_architecture_cpp.Utils.Env.{Environ, get_env}

-- A call returns, waits for ever, or ends the process: an exception leaves a `noexcept` function.
pub data Call (A : Type 0) : Type 0 where
  returns : A → CryptoState → Call A
  waits terminates : Call A

module _ (encodedlen : ℕ → ℕ → ℕ → ℕ → ℕ → ℕ) (hash_encoded : MainCrypto → Text → ErrorCode × Text)
    (verify_encoded : Text → Text → ErrorCode) (error_message : ErrorCode → Text) where
  abbrev pub with_crypto :
      {A : Type 0} → (MainCrypto → A) → Throws MainCrypto × CryptoState → Call A
  with_crypto f (ret c, s) = returns (f c) s
  with_crypto f (throw never_returns, s) = waits
  with_crypto f (throw e, s) = terminates

  -- `UserCrypto::hash`
  unfoldable pub hash : Environ → CryptoState → Text → Call (Expected Text)
  unfolding get_crypto hash_impl
  hash env s text =
      with_crypto (λ c. hash_impl hash_encoded verify_encoded error_message c text)
        (get_crypto encodedlen env s)

  -- `UserCrypto::verify`
  unfoldable pub verify : Environ → CryptoState → Text → Text → Call (Expected Bool)
  unfolding get_crypto verify_impl
  verify env s text hashed =
      with_crypto (λ c. verify_impl hash_encoded verify_encoded error_message text hashed)
        (get_crypto encodedlen env s)

  -- Where the settings are numbers and argon2 does what its documentation says, the first hash of the
  -- process, if it succeeds, verifies its password in every later environment, by the object that was
  -- made for it.
  pub verify-hash :
      (encoded : MainCrypto → Text → Text) (argon2 : IsArgon2 hash_encoded verify_encoded encoded)
      (env later : Environ) (c : MainCrypto) (password hashed : Text) (s : CryptoState)
      → from_env encodedlen env ≡ ret c
      → hash env new_state password ≡ returns (value hashed) s
      → (s.crypto ≡ some c) × (verify later s password hashed ≡ returns (value true) s)
  unfolding hash verify get_crypto
  verify-hash encoded argon2 env later c password hashed s e h =
      let made : CryptoState = record { crypto = some c; locked = false } in
      let h' : returns (hash_impl hash_encoded verify_encoded error_message c password) made
          ≡ returns (value hashed) s =
        rw e at h in
      let verified =
        (verify_impl-hash_impl hash_encoded verify_encoded error_message encoded argon2 c password
          hashed (cc)).0 in
      let same : made ≡ s = cc in
      subst
        (λ (t : CryptoState).
          (t.crypto ≡ some c) × (verify later t password hashed ≡ returns (value true) t))
        same (refl, ap (λ (v : Expected Bool). returns v made) verified)

  terminates_of_throws :
      {A : Type 0} (f : MainCrypto → A) (r : Throws MainCrypto × CryptoState)
      → r.0 ≡ throw invalid_argument
      → with_crypto f r ≡ terminates
  terminates_of_throws f (ret c, s) h = absurd (cc)
  terminates_of_throws f (throw invalid_argument, s) h = refl
  terminates_of_throws f (throw out_of_range, s) h = refl
  terminates_of_throws f (throw out_of_fuel, s) h = refl
  terminates_of_throws f (throw never_returns, s) h = absurd (cc)
  terminates_of_throws f (throw null_pointer, s) h = refl

  -- Where ARGONID_ITERATION_COST is a text that does not begin with white space, a sign or a digit,
  -- the first password that is hashed ends the process.
  pub hash_terminates :
      (env : Environ) (c : ℕ) (s password : Text)
      → get_env (codes "ARGONID_ITERATION_COST") (codes "2") env ≡ c ∷ s
      → is_space c ≡ false
      → (c == b'-') ≡ false
      → (c == b'+') ≡ false
      → is_decimal c ≡ false
      → hash env new_state password ≡ terminates
  unfolding hash
  hash_terminates env c s password e sp m p d =
      let first = (get_crypto_stays_locked encodedlen env env c s e sp m p d).0 in
      terminates_of_throws _ (get_crypto encodedlen env new_state) first

  -- What the use cases see of a call that returns.
  abbrev pub settled : {A : Type 0} → Call A → Option A
  settled (returns a s) = some a
  settled waits = none
  settled terminates = none

  -- The cryptography of the use cases. The object that a process keeps is the one that each call would
  -- make of the same environment.
  abbrev pub user_crypto : Environ → Crypto
  user_crypto env = record {
    hash = λ password. settled (hash env new_state password);
    verify = λ password hashed. settled (verify env new_state password hashed);
  }

  -- Where the settings are numbers, the cryptography never ends the process.
  pub user_crypto-IsReturning :
      (env : Environ) (c : MainCrypto)
      → from_env encodedlen env ≡ ret c
      → IsReturning (user_crypto env)
  unfolding hash verify get_crypto
  user_crypto-IsReturning env c e = record {
    hashes = λ password. rw e (λ f. absurd (cc));
    verifies = λ password hashed. rw e (λ f. absurd (cc));
  }
