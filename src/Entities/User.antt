-- ===== src/Entities/User.antt =====
-- src/entities/user/build.hpp and factory.cpp: the user entity and its validation. The crypto
-- interface is a section's parameter here.
pub mod Validation
use mathlib.Core.Option
use clean_architecture_cpp.Base.{
  ◌≢◌, ℕ, ◌%◌, ◌^◌, Bool, ltb, if◌then◌else◌, Option, none, some, List, [], ◌∷◌, Text, codes,
  length,
}
use clean_architecture_cpp.Entities.Log.{Log, empty_log, Expected, value, unexpected}
use clean_architecture_cpp.Utils.Strings.{trim}

pub record User : Type 0 where
  pub id : Text
  pub username : Text
  pub password : Text
  pub hashed : Text

abbrev pub error_msg : Text
error_msg = codes "User Validation Error"

-- `validate_username` trims its argument, and may return an error's text.
unfoldable pub validate_username : Text → Option Text × Text
validate_username username =
    let trimmed = trim username in
    (
      (if ltb (length trimmed) 8
          then some (codes "username: min")
          else if ltb 60 (length trimmed)
          then some (codes "username: max")
          else none),
      trimmed,
    )

abbrev made : Text → User → Option Text → Expected User
made function user none = value user
made function user (some err) = unexpected (record empty_log {
  msg = error_msg;
  file = codes "src/entities/factory.cpp";
  function = function;
  errors = err ∷ [];
})

-- The three overloads of `make_user`. Each also trims the caller's user name in place.
unfoldable pub make_user : Text → Text → Text → Expected User × Text
unfolding validate_username
make_user id username hashed =
    let (err, trimmed) = validate_username username in
    (
      made (codes "entity::make_user(std::string& id, std::string& username, std::string& hashed)")
          (record { id = id; username = trimmed; password = []; hashed = hashed }) err,
      trimmed,
    )

unfoldable pub make_user_with_id : Text → Text → Expected User × Text
unfolding validate_username
make_user_with_id id username =
    let (err, trimmed) = validate_username username in
    (
      made (codes "entity::make_user(std::string& id, std::string& username)")
          (record { id = id; username = trimmed; password = []; hashed = [] }) err,
      trimmed,
    )

unfoldable pub make_new_user : Text → Expected User × Text
unfolding validate_username
make_new_user username =
    let (err, trimmed) = validate_username username in
    (
      made (codes "entity::make_user(std::string& id)")
          (record { id = []; username = trimmed; password = []; hashed = [] }) err,
      trimmed,
    )

abbrev password_log : Text → Log
password_log err = record empty_log {
  msg = error_msg;
  file = codes "entities/user/build.hpp";
  errors = err ∷ [];
}

-- `set_password` returns a log, or takes the password over. The length is a `uint`.
unfoldable pub set_password : Text → User → Option Log × User
set_password password user =
    if ltb (length password % 2 ^ 32) 8
    then (some (password_log (codes "password: min")), user)
    else if ltb 60 (length password % 2 ^ 32)
    then (some (password_log (codes "password: max")), user)
    else (none, record user { password = password })

-- What a crypto implementation offers: `hash` and `verify`. `none` is a call that ends the process,
-- by an exception that leaves a `noexcept` function.
pub record Crypto : Type 0 where
  pub hash : Text → Option (Expected Text)
  pub verify : Text → Text → Option (Expected Bool)

-- Cryptography that never ends the process.
pub record IsReturning (crypto : Crypto) : Type 0 where
  pub hashes : (password : Text) → crypto.hash password ≢ none
  pub verifies : (password hashed : Text) → crypto.verify password hashed ≢ none

module _ (crypto : Crypto) where
  abbrev pub hashed_user : User → Expected Text → Option Log × User
  hashed_user user (value hash) = (none, record user { hashed = hash })
  hashed_user user (unexpected log) = (some log, user)

  unfoldable pub hash_password : User → Option (Option Log × User)
  hash_password user = Option.map (hashed_user user) (crypto.hash user.password)

  unfoldable pub verify_password : Text → User → Option (Expected Bool)
  verify_password password user = crypto.verify password user.hashed
