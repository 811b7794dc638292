-- ===== src/Crypto/Laws.antt =====
-- main.cpp against the documented behaviour of argon2.
use clean_architecture_cpp.Base.{
  ◌≡◌, refl, ◌∙◌, ap, sym, true, false, ◌≢◌, [], ◌∷◌, ◌++◌, Text, length, take, take-length, Lacks,
}
use clean_architecture_cpp.Entities.Log.{value}
use clean_architecture_cpp.Store.Redis.{c_string}
use clean_architecture_cpp.Store.Redis.Laws.{c_string_of_Lacks}
use clean_architecture_cpp.Crypto.{
  ErrorCode, argon2_ok, argon2_verify_mismatch, argon2_other, MainCrypto, hash_impl, verify_impl,
  hash_of,
}

-- Argon2 on success fills the buffer with the encoded hash and a zero byte, and verifies exactly the
-- passwords that have the same encoded hash; others are a mismatch.
pub record IsArgon2 (hash_encoded : MainCrypto → Text → ErrorCode × Text)
    (verify_encoded : Text → Text → ErrorCode) (encoded : MainCrypto → Text → Text) : Type 0 where
  pub fills :
      (c : MainCrypto) (password buffer : Text)
      → hash_encoded c password ≡ (argon2_ok, buffer)
      → (buffer ≡ encoded c password ++ 0 ∷ [])
        × (length buffer ≡ c.encoded_len)
        × Lacks 0 (encoded c password)
  pub accepts :
      (c : MainCrypto) (password other : Text)
      → encoded c other ≡ encoded c password
      → verify_encoded (encoded c password) other ≡ argon2_ok
  pub refuses :
      (c : MainCrypto) (password other : Text)
      → encoded c other ≢ encoded c password
      → verify_encoded (encoded c password) other ≡ argon2_verify_mismatch

c_string-end : (s : Text) → Lacks 0 s → c_string (s ++ 0 ∷ []) ≡ s
unfolding c_string
c_string-end [] h = refl
c_string-end (c ∷ s) (p, h) = rw p (ap (◌∷◌ c) (c_string-end s h))

module _ (hash_encoded : MainCrypto → Text → ErrorCode × Text)
    (verify_encoded : Text → Text → ErrorCode) (error_message : ErrorCode → Text)
    (encoded : MainCrypto → Text → Text)
    (argon2 : IsArgon2 hash_encoded verify_encoded encoded) where
  hash_of-value :
      (c : MainCrypto) (password hash : Text) (r : ErrorCode × Text)
      → hash_encoded c password ≡ r
      → hash_of hash_encoded verify_encoded error_message c r ≡ value hash
      → hash ≡ encoded c password ++ 0 ∷ []
  hash_of-value c password hash (argon2_ok, buffer) e h =
      let (filled, full, lacks) = argon2.fills c password buffer e in
      let same : hash ≡ take c.encoded_len buffer = cc in
      same ∙ ap (λ n. take n buffer) (sym full) ∙ take-length buffer ∙ filled
  hash_of-value c password hash (argon2_verify_mismatch, buffer) e h = absurd (cc)
  hash_of-value c password hash (argon2_other n, buffer) e h = absurd (cc)

  ok_of_value :
      (c : MainCrypto) (hash : Text) (r : ErrorCode × Text)
      → hash_of hash_encoded verify_encoded error_message c r ≡ value hash
      → r ≡ (argon2_ok, r.1)
  ok_of_value c hash (argon2_ok, buffer) h = refl
  ok_of_value c hash (argon2_verify_mismatch, buffer) h = absurd (cc)
  ok_of_value c hash (argon2_other n, buffer) h = absurd (cc)

  c_string-hash_impl :
      (c : MainCrypto) (password hash : Text)
      → hash_impl hash_encoded verify_encoded error_message c password ≡ value hash
      → (c_string hash ≡ encoded c password) × Lacks 0 (encoded c password)
  unfolding hash_impl
  c_string-hash_impl c password hash h =
      let e = ok_of_value c hash (hash_encoded c password) h in
      let (filled, full, lacks) = argon2.fills c password (hash_encoded c password).1 e in
      (
        ap c_string (hash_of-value c password hash (hash_encoded c password) refl h)
            ∙ c_string-end (encoded c password) lacks,
        lacks,
      )

  -- A hash that `hash_impl` gave verifies, as it is and cut at its first zero byte, the password it
  -- was made of and all others with the same encoded hash, and refuses every other password, if argon2
  -- does what its documentation says.
  pub verify_impl-hash_impl :
      (c : MainCrypto) (password hash : Text)
      → hash_impl hash_encoded verify_encoded error_message c password ≡ value hash
      → let verify = verify_impl hash_encoded verify_encoded error_message in
        (verify password hash ≡ value true)
        × (verify password (c_string hash) ≡ value true)
        × ((other : Text)
            → (encoded c other ≡ encoded c password → verify other hash ≡ value true)
              × (encoded c other ≢ encoded c password → verify other hash ≡ value false))
  unfolding verify_impl
  verify_impl-hash_impl c password hash h =
      let (e, lacks) = c_string-hash_impl c password hash h in
      (
        rw (e, argon2.accepts c password password refl) refl,
        rw
            (
              e,
              c_string_of_Lacks (encoded c password) lacks,
              argon2.accepts c password password refl,
            )
            refl,
        λ other. (
          λ same. rw (e, argon2.accepts c password other same) refl,
          λ differs. rw (e, argon2.refuses c password other differs) refl,
        ),
      )
