-- ===== src/Tests/Logins.antt =====
-- Runs of the theorems on the use cases, with one user in the database.
use clean_architecture_cpp.Base.{
  ℕ, ◌+◌, ◌≡◌, refl, Bool, Option, none, some, if◌then◌else◌, [], Text, codes, push_back, text_eq,
  arith, inr, inl,
}
use clean_architecture_cpp.Base.Integer.{pos}
use clean_architecture_cpp.Entities.Log.{value}
use clean_architecture_cpp.Entities.User.{verify_password, Crypto}
use clean_architecture_cpp.Http.Message.{fresh_request, fresh_response}
use clean_architecture_cpp.Store.{ran}
use clean_architecture_cpp.Utils.Strings.{trim, ltrim, rtrim}
use clean_architecture_cpp.Adapters.Wrapper.{WrapperRequest, session_cookie}
use clean_architecture_cpp.Adapters.Wrapper.Sessions.{key_of}
use clean_architecture_cpp.UseCases.{
  IUserDb, AuthBody, World, parse_body, parse_json_body, login, logout, register,
}
use clean_architecture_cpp.UseCases.Login.{accepted, LoginLeaves, login-LoginLeaves}
use clean_architecture_cpp.UseCases.Register.{
  added_response, register-added_response, register_refuses,
}
use clean_architecture_cpp.UseCases.Logout.{logout_ends}
use clean_architecture_cpp.Tests.Storing.{Entries, lookup}
use clean_architecture_cpp.Tests.Sessions.{
  entries, Any, entries-IsStore, words, pack, unpack, bob, visitor, member,
}

abbrev pub database : IUserDb ℕ
database = record {
  get_user_by_username = λ name d. ran (value bob) d;
  add_user = λ user d. ran (value (codes "8")) (d + 1);
}

abbrev pub crypto : Crypto
crypto = record { hash = λ p. some (value p); verify = λ p h. some (value (text_eq p h)) }

abbrev pub json : Text → Option (Text × Text)
json s = some (codes "bobby123", s)

abbrev pub flat : Text → Option (Bool × Option Text × Option Text)
flat s = none

abbrev pub sent : AuthBody
sent = record { username = codes "bobby123"; password = codes "password" }

-- A visitor who sends a password.
abbrev pub sends : Text → World Entries ℕ
sends password = record {
  request = record visitor { req = record (fresh_request 1 1) { body = password } };
  users = 1;
}

login-LoginLeaves_example :
    (w' : World Entries ℕ) × (login entries words database crypto json flat pack unpack 1
        (sends (codes "password"))
      ≡ ran tt w')
    × LoginLeaves entries words database crypto json flat pack unpack 1 Any lookup entries-IsStore
        (accepted crypto (codes "password") (value bob))
        (sends (codes "password"))
        w'
    × (w'.users ≡ 1)
unfolding parse_body text_eq verify_password
login-LoginLeaves_example =
    login-LoginLeaves entries words database crypto json flat pack unpack 1 Any lookup
      entries-IsStore (sends (codes "password")) sent (value bob) 1 0 tt tt refl refl refl refl
      (λ e. cc) (omega arith) refl

abbrev logged_in : World Entries ℕ
logged_in = record { request = member; users = 1 }

register-added_response_example :
    (w' : World Entries ℕ) × (register entries words database crypto json (sends (codes "password"))
      ≡ ran tt w')
    × (w'.request.res ≡ added_response (value (codes "8")) fresh_response)
    × (w'.users ≡ 2)
unfolding parse_json_body trim ltrim rtrim
register-added_response_example =
    register-added_response entries words database crypto json Any lookup entries-IsStore
      (sends (codes "password")) sent (codes "password") (value (codes "8")) 2 tt tt refl refl refl
      (omega arith, omega arith) (omega arith, omega arith) refl refl

register_refuses_example :
    (w' : World Entries ℕ) × (register entries words database crypto json (sends (codes "short"))
      ≡ ran tt w')
    × (w'.request.res.status ≡ 400)
    × (w'.users ≡ 1)
unfolding parse_json_body
register_refuses_example =
    register_refuses entries words database crypto json Any lookup entries-IsStore
      (sends (codes "short")) (record sent { password = codes "short" }) tt tt refl refl
      (inr (inl (omega arith)))

logout_ends_example :
    (x' : WrapperRequest Entries) × (logout entries words pack unpack member ≡ ran tt x')
    × ((j : Text)
        → lookup x'.store j
          ≡ (if text_eq (key_of (codes "a")) j then none else lookup member.store j))
    × (x'.res ≡ record fresh_response {
      status = 204;
      cookies = push_back [] (session_cookie [] (pos 0));
    })
unfolding text_eq
logout_ends_example =
    logout_ends entries words pack unpack Any lookup entries-IsStore member
      (pack (codes "7") (codes "bobby123")) tt refl (refl, tt) refl
