-- ===== src/Crypto.antt =====
-- src/interfaces/crypto: main.cpp, and the one object of singleton.cpp. The functions of argon2 are a
-- section's parameters.
pub mod Laws
pub mod Singleton
pub mod Once
pub mod UserCrypto
use clean_architecture_cpp.Base.{ℕ, zero, Bool, true, false, List, Text, codes, length, take, arith}
use clean_architecture_cpp.Entities.Log.{Log, empty_log, Expected, value, unexpected}
use clean_architecture_cpp.Store.Redis.{c_string}

-- What argon2 returns.
pub data ErrorCode : Type 0 where
  argon2_ok argon2_verify_mismatch : ErrorCode
  argon2_other : ℕ → ErrorCode

pub record MainCrypto : Type 0 where
  pub iteration_cost : ℕ
  pub memory_cost : ℕ
  pub parallelism : ℕ
  pub hash_len : ℕ
  pub salt : Text
  pub encoded_len : ℕ

-- `argon2_encodedlen(t_cost, m_cost, parallelism, saltlen, hashlen, Argon2_id)`
unfoldable pub make_crypto : (ℕ → ℕ → ℕ → ℕ → ℕ → ℕ) → ℕ → ℕ → ℕ → ℕ → Text → MainCrypto
make_crypto encodedlen iteration_cost memory_cost parallelism hash_len salt = record {
  iteration_cost = iteration_cost;
  memory_cost = memory_cost;
  parallelism = parallelism;
  hash_len = hash_len;
  salt = salt;
  encoded_len = encodedlen iteration_cost memory_cost parallelism (length salt) hash_len;
}

-- `argon2id_hash_encoded` gives a code and what the buffer of `encoded_len` bytes then holds;
-- `argon2id_verify` takes the encoded hash and a password.
module _ (hash_encoded : MainCrypto → Text → ErrorCode × Text)
    (verify_encoded : Text → Text → ErrorCode) (error_message : ErrorCode → Text) where
  abbrev pub argon2_log : ErrorCode → Log
  argon2_log err = record empty_log {
    msg = error_message err;
    file = codes "interfaces/crypto/main.cpp";
    function = codes "hash_impl";
  }

  abbrev pub hash_of : MainCrypto → ErrorCode × Text → Expected Text
  hash_of c (argon2_ok, encoded) = value (take c.encoded_len encoded)
  hash_of c (err, encoded) = unexpected (argon2_log err)

  unfoldable pub hash_impl : MainCrypto → Text → Expected Text
  hash_impl c password = hash_of c (hash_encoded c password)

  abbrev pub verified_of : ErrorCode → Expected Bool
  verified_of argon2_ok = value true
  verified_of argon2_verify_mismatch = value false
  verified_of err = unexpected (argon2_log err)

  unfoldable pub verify_impl : Text → Text → Expected Bool
  verify_impl password hashed = verified_of (verify_encoded (c_string hashed) password)
