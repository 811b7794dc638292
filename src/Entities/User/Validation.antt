-- ===== src/Entities/User/Validation.antt =====
-- factory.cpp and build.hpp: which users can be made, and which passwords they can have.
use clean_architecture_cpp.Base.{
  ◌%◌, ◌^◌, ◌≤◌, ◌<◌, ◌≡◌, ◌↔◌, ◌⊎◌, inl, inr, refl, ap, ltb, leb, ◌&&◌, if◌then◌else◌, ltb→lt,
  ltb_false→le, Bool-cases, none, some, [], ◌∷◌, Text, codes, length, arith,
}
use clean_architecture_cpp.Entities.Log.{Log, Expected, value, unexpected}
use clean_architecture_cpp.Entities.User.{User, make_user, set_password, made}
use clean_architecture_cpp.Utils.Strings.{trim}
use clean_architecture_cpp.Utils.Strings.Trim.{IsTrimmed, trim-IsTrimmed, trim_of_IsTrimmed}

-- A user name of 8 to 60 bytes, without spaces at its ends.
pub record IsUsername (name : Text) : Type 0 where
  pub trimmed : IsTrimmed name
  pub long : 8 ≤ length name
  pub short : length name ≤ 60

-- The log of a refused name has one error, which names the bound that was missed.
abbrev pub Refused : Text → Expected User → Type 0
Refused name result =
    (log : Log) × (result ≡ unexpected log)
    × (((length name < 8) × (log.errors ≡ codes "username: min" ∷ []))
        ⊎ ((60 < length name) × (log.errors ≡ codes "username: max" ∷ [])))

refused :
    (function : Text) (user : User) (name err : Text)
    → ((length name < 8) × (err ≡ codes "username: min"))
      ⊎ ((60 < length name) × (err ≡ codes "username: max"))
    → Refused name (made function user (some err))
refused function user name err (inl (h, e)) = (_, refl, inl (h, ap (λ k. k ∷ []) e))
refused function user name err (inr (h, e)) = (_, refl, inr (h, ap (λ k. k ∷ []) e))

-- `make_user` makes a user with the given id and hash, with the trimmed name and with no password,
-- if that name has 8 to 60 bytes; the name then has no space at its ends. Else it reports the bound
-- that was missed. The caller's name is trimmed in both cases.
pub make_user_outcome :
    (id username hashed : Text)
    → ((make_user id username hashed).1 ≡ trim username)
      × ((((make_user id username hashed).0
              ≡ value
                  (record { id = id; username = trim username; password = []; hashed = hashed }))
            × IsUsername (trim username))
          ⊎ Refused (trim username) (make_user id username hashed).0)
unfolding make_user
make_user_outcome id username hashed =
    let (pre, post, same, a, b, trimmed) = trim-IsTrimmed username in
    let name = trim username in
    let user : User = record { id = id; username = name; password = []; hashed = hashed } in
    (
      refl,
      elim (Bool-cases (ltb (length name) 8)) [
        | inl e ↦ inr (rw e (refused _ user name _ (inl (ltb→lt (length name) 8 e, refl))))
        | inr e ↦ elim (Bool-cases (ltb 60 (length name))) [
          | inl f ↦ inr (rw (e, f) (refused _ user name _ (inr (ltb→lt 60 (length name) f, refl))))
          | inr f ↦ inl (
            rw (e, f),
            record {
              trimmed = trimmed;
              long = ltb_false→le (length name) 8 e;
              short = ltb_false→le 60 (length name) f;
            },
          )
        ]
      ],
    )

-- A name that was accepted once is accepted again, and stays as it is: a user that was stored can be
-- made anew from what was stored.
pub make_user-IsUsername :
    (id username hashed : Text)
    → IsUsername username
    → make_user id username hashed
      ≡ (value (record { id = id; username = username; password = []; hashed = hashed }), username)
unfolding make_user
make_user-IsUsername id username hashed v = rw (trim_of_IsTrimmed username v.trimmed) (ground arith)

-- `set_password` takes over exactly the passwords whose length, cut to 32 bits, is 8 to 60, and otherwise leaves the user as
-- it was.
pub set_password_outcome :
    (password : Text) (user : User)
    → (((set_password password user).0 ≡ none)
        ↔ ((8 ≤ length password % 2 ^ 32) × (length password % 2 ^ 32 ≤ 60)))
      × ((set_password password user).1 ≡ (
          if leb 8 (length password % 2 ^ 32) && leb (length password % 2 ^ 32) 60
          then record user { password = password }
          else user))
unfolding set_password
set_password_outcome password user = ((λ e. ground arith, λ h. ground arith), ground arith)
