-- ===== src/Tests/Traces.antt =====
-- Runs of the theorems on traces of requests: a login, and the request for the current user behind it.
use clean_architecture_cpp.Base.{
  ℕ, ◌≡◌, refl, arith, some, split, starts_with, [], ◌∷◌, Text, codes, text_eq, ret,
}
use clean_architecture_cpp.Base.Integer.{pos}
use clean_architecture_cpp.Base.Decimal.{to_string}
use clean_architecture_cpp.Entities.User.{IsReturning, verify_password}
use clean_architecture_cpp.Http.Message.{
  Request, Response, fresh_request, fresh_response, application_json,
}
use clean_architecture_cpp.Http.Router.Dispatch.{before_query}
use clean_architecture_cpp.Store.Redis.{c_string}
use clean_architecture_cpp.Adapters.Wrapper.{
  char_at, letters, new_id, get_session_id, get_session_key, is_auth, get_new_session_id,
  set_session_user, get_session_user, session_cookie, set_status, set_body, set_content_type,
}
use clean_architecture_cpp.UseCases.{
  answer_verified, parse_body, check_body, check_user, answer_login, login, current_user,
}
use clean_architecture_cpp.Api.{get_user_auth, Backend, execute, serve_api}
use clean_architecture_cpp.Api.Routes.{served_by, endpoint_of, serve_api-served_by}
use clean_architecture_cpp.Api.Warrants.{IsWarranted}
use clean_architecture_cpp.Api.Warrants.Answers.{Discloses}
use clean_architecture_cpp.Api.Warrants.Traces.{
  serves, Reach, here, next, Reach-IsWarranted, Reach-Discloses,
}
use clean_architecture_cpp.Api.Warrants.Databases.{IsAnswering}
use clean_architecture_cpp.Api.Warrants.Answering.{serve_api-answers}
use clean_architecture_cpp.Tests.Logins.{database, crypto, json, flat}
use clean_architecture_cpp.Tests.Sessions.{
  entries, Any, entries-IsStore, words, pack, unpack, unpack-pack,
}
use clean_architecture_cpp.Tests.Storing.{Entries, lookup}
use clean_architecture_cpp.Tests.Apis.{login_request, backend, dump}

abbrev session : Text
session = codes "bbbbbbbbbbbbbbbb"

abbrev behind_login : Backend Entries ℕ
behind_login = record {
  store = (codes "sess:bbbbbbbbbbbbbbbb", pack (codes "7") (codes "bobby123")) ∷ [];
  users = 1;
  draws = 2;
}

abbrev answered_login : Response
answered_login = record fresh_response {
  status = 204;
  cookies = session_cookie session (pos 3600) ∷ [];
}

login-served :
    serve_api entries words database crypto json flat pack unpack dump 1 login_request
      fresh_response backend
    ≡ ret (record login_request { session_id = session }, answered_login, behind_login)
unfolding execute login parse_body check_body check_user answer_verified answer_login
    set_session_user get_new_session_id get_session_key get_session_id is_auth set_status
    verify_password new_id letters char_at served_by endpoint_of text_eq starts_with before_query
    split
login-served =
    rw
      (serve_api-served_by entries words database crypto json flat pack unpack dump 1 login_request
        fresh_response backend)
      refl

abbrev user_request : Request
user_request = record (fresh_request 1 1) {
  method = codes "GET";
  uri = codes "/api/user";
  session_id = session;
}

user-served_by : served_by user_request ≡ some get_user_auth
unfolding served_by endpoint_of text_eq starts_with before_query split
user-served_by = refl

abbrev answered_user : Response
answered_user = record fresh_response {
  status = 200;
  content = codes "7bobby123";
  content_length = codes "9";
  content_type = application_json;
}

user-served :
    serve_api entries words database crypto json flat pack unpack dump 1 user_request fresh_response
      behind_login
    ≡ ret (user_request, answered_user, behind_login)
unfolding execute current_user get_session_user get_session_key get_session_id is_auth set_status
    set_body set_content_type text_eq c_string to_string
user-served =
    rw
      (
        serve_api-served_by entries words database crypto json flat pack unpack dump 1 user_request
            fresh_response behind_login,
        user-served_by,
      )
      refl

one_login :
    Reach entries words database crypto json flat pack unpack dump 1 Any lookup entries-IsStore
      unpack-pack backend behind_login
one_login = next here (serves login_request fresh_response _ _ _ (tt) login-served)

Reach-IsWarranted_example :
    IsWarranted database crypto pack (lookup behind_login.store (codes "sess:bbbbbbbbbbbbbbbb"))
Reach-IsWarranted_example =
    Reach-IsWarranted entries words database crypto json flat pack unpack dump 1 Any lookup
      entries-IsStore unpack-pack (codes "sess:bbbbbbbbbbbbbbbb") tt (λ j. refl) one_login

Reach-Discloses_example :
    Discloses entries words database crypto pack unpack Any lookup entries-IsStore dump
      fresh_response answered_user
Reach-Discloses_example =
    Reach-Discloses entries words database crypto json flat pack unpack dump 1 Any lookup
      entries-IsStore unpack-pack user_request fresh_response user_request answered_user
      behind_login tt (λ j. refl) one_login
      (
        refl,
        (
          refl,
          (
            refl,
            (
              refl,
              (
                refl,
                (
                  refl,
                  (
                    refl,
                    (refl, (refl, (refl, (refl, (refl, (refl, (refl, (refl, (refl, tt))))))))),
                  ),
                ),
              ),
            ),
          ),
        ),
      )
      user-served_by user-served

database-IsAnswering : IsAnswering database (λ d. Unit)
database-IsAnswering = record {
  finds = λ name d up. tt;
  finds_up = λ name d up. tt;
  adds = λ user d up. tt;
  adds_up = λ user d up. tt;
}

crypto-IsReturning : IsReturning crypto
crypto-IsReturning = record { hashes = λ p e. cc; verifies = λ p h e. cc }

serve_api-answers_example :
    (req' : Request) × (res' : Response) × (d : Backend Entries ℕ) × (serve_api entries words
        database crypto json flat pack unpack dump 1 login_request fresh_response behind_login
      ≡ ret (req', res', d))
unfolding parse_body text_eq get_session_id new_id letters char_at
serve_api-answers_example =
    serve_api-answers entries words database crypto json flat pack unpack dump 1 Any lookup
      entries-IsStore login_request fresh_response (λ d. Unit) database-IsAnswering
      crypto-IsReturning unpack-pack (λ user credit e. cc) tt tt (λ j. refl) one_login tt
      (λ e. ((λ f. cc), (0, omega arith, refl)))
