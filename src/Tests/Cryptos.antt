-- ===== src/Tests/Cryptos.antt =====
-- Runs of the theorems on the cryptography, with an argon2 that does not hide the password.
use clean_architecture_cpp.Base.{
  ◌==◌, ℕ, ◌+◌, ◌≡◌, refl, ap, sym, true, false, if◌then◌else◌, some, [], ◌∷◌, ◌++◌, Text, codes,
  length, length-append, Lacks, text_eq, text_eq_refl, text_eq→eq, Bool-cases, inl, inr, arith,
}
use clean_architecture_cpp.Base.Integer.{skip_space, leading_digits}
use clean_architecture_cpp.Base.Decimal.{read_digits}
use clean_architecture_cpp.Entities.Log.{value}
use clean_architecture_cpp.Crypto.{
  ErrorCode, argon2_ok, argon2_verify_mismatch, argon2_other, MainCrypto, make_crypto, hash_impl,
}
use clean_architecture_cpp.Crypto.Laws.{IsArgon2}
use clean_architecture_cpp.Crypto.Singleton.{
  from_env, cost, stoul, CryptoState, new_state, get_crypto,
}
use clean_architecture_cpp.Crypto.UserCrypto.{
  returns, terminates, hash, verify, verify-hash, hash_terminates,
}
use clean_architecture_cpp.Startup.Numbers.{to_uint}
use clean_architecture_cpp.Store.Redis.{c_string}
use clean_architecture_cpp.Utils.Env.{get_env, getenv}

-- A password as bytes that are not 0.
abbrev encode : Text → Text
encode [] = []
encode (b ∷ s) = (b + 1) ∷ encode s

encode-Lacks : (s : Text) → Lacks 0 (encode s)
encode-Lacks [] = tt
encode-Lacks (b ∷ s) = (ground arith, encode-Lacks s)

length-encode : (s : Text) → length (encode s) ≡ length s
length-encode [] = refl
length-encode (b ∷ s) = omega (arith, length-encode s)

-- A password that fits the buffer is hashed.
abbrev hash_encoded : MainCrypto → Text → ErrorCode × Text
hash_encoded c s =
    if length s + 1 == c.encoded_len then (argon2_ok, encode s ++ 0 ∷ []) else (argon2_other 1, [])

abbrev verify_encoded : Text → Text → ErrorCode
verify_encoded e s = if text_eq e (encode s) then argon2_ok else argon2_verify_mismatch

hash_encoded-fills :
    (c : MainCrypto) (password buffer : Text)
    → hash_encoded c password ≡ (argon2_ok, buffer)
    → (buffer ≡ encode password ++ 0 ∷ [])
      × (length buffer ≡ c.encoded_len)
      × Lacks 0 (encode password)
hash_encoded-fills c password buffer h = elim (Bool-cases (length password + 1 == c.encoded_len)) [
  | inl e ↦
      let h' : ◌≡◌ {A = ErrorCode × Text} (argon2_ok, encode password ++ 0 ∷ [])
          (argon2_ok, buffer) =
        rw e at h in
      let same : encode password ++ 0 ∷ [] ≡ buffer = ap (λ r. r.1) h' in
      let long : length password + 1 ≡ c.encoded_len = ground arith in
      (
        sym same,
        omega (
          arith,
          ap length same,
          long,
          length-append (encode password) (0 ∷ []),
          length-encode password,
        ),
        encode-Lacks password,
      )
  | inr e ↦
      let h' : ◌≡◌ {A = ErrorCode × Text} (argon2_other 1, []) (argon2_ok, buffer) = rw e at h in
      absurd (cc)
]

argon2 : IsArgon2 hash_encoded verify_encoded (λ c s. encode s)
argon2 = record {
  fills = hash_encoded-fills;
  accepts = λ c password other h. rw (h, text_eq_refl (encode password)) refl;
  refuses = λ c password other h. elim (Bool-cases (text_eq (encode password) (encode other))) [
    | inl e ↦ absurd (h (sym (text_eq→eq (encode password) (encode other) e)))
    | inr e ↦ rw e refl
  ];
}

abbrev encodedlen : ℕ → ℕ → ℕ → ℕ → ℕ → ℕ
encodedlen t m p saltlen hashlen = 9

abbrev message : ErrorCode → Text
message err = []

abbrev from_defaults : MainCrypto
from_defaults = make_crypto encodedlen 2 16348 1 32 (codes "super-secret-password")

abbrev hashed : Text
hashed = encode (codes "password") ++ 0 ∷ []

abbrev kept : CryptoState
kept = record { crypto = some from_defaults; locked = false }

verify-hash_example :
    (kept.crypto ≡ some from_defaults)
    × (verify encodedlen hash_encoded verify_encoded message [] kept (codes "password") hashed
        ≡ returns (value true) kept)
unfolding from_env cost stoul to_uint get_env getenv hash hash_impl get_crypto make_crypto
    skip_space leading_digits read_digits
verify-hash_example =
    verify-hash encodedlen hash_encoded verify_encoded message (λ c s. encode s) argon2 [] []
      from_defaults (codes "password") hashed kept refl refl

hash_terminates_example :
    hash encodedlen hash_encoded verify_encoded message
      ((codes "ARGONID_ITERATION_COST", codes "two") ∷ [])
      new_state
      (codes "password")
    ≡ terminates
unfolding get_env getenv text_eq c_string
hash_terminates_example =
    hash_terminates encodedlen hash_encoded verify_encoded message
      ((codes "ARGONID_ITERATION_COST", codes "two") ∷ []) b't' (codes "wo") (codes "password") refl
      refl refl refl refl
