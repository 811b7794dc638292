-- ===== src/Tests/Apis.antt =====
-- Runs of the theorems on auth.hpp of the API.
use clean_architecture_cpp.Base.{
  ℕ, ◌≡◌, refl, false, Option, some, starts_with, split, [], ◌∷◌, ◌++◌, Text, codes, text_eq, ret,
  arith,
}
use clean_architecture_cpp.Base.Integer.{pos, stoi, read_signed}
use clean_architecture_cpp.Entities.Log.{value}
use clean_architecture_cpp.Entities.User.{verify_password}
use clean_architecture_cpp.Http.Message.{Request, fresh_request, fresh_response}
use clean_architecture_cpp.Http.Parser.{is_tspecial, is_ctl, is_char}
use clean_architecture_cpp.Http.Parser.Formats.{Head, IsHead, lay_out}
use clean_architecture_cpp.Http.Parser.RoundTrip.{with_head}
use clean_architecture_cpp.Http.Router.{answer}
use clean_architecture_cpp.Http.Router.Dispatch.{before_query}
use clean_architecture_cpp.Http.Connection.{writing, on_read, take_headers, take_header}
use clean_architecture_cpp.Http.Connection.Serving.{parsed}
use clean_architecture_cpp.Store.{ran}
use clean_architecture_cpp.Utils.Strings.{iequals, tolower}
use clean_architecture_cpp.Adapters.Wrapper.{WrapperRequest, get_session_id}
use clean_architecture_cpp.UseCases.{World, parse_body, current_user}
use clean_architecture_cpp.UseCases.Current.{shown, current_user-shown}
use clean_architecture_cpp.UseCases.Login.{accepted, LoginLeaves}
use clean_architecture_cpp.Api.{login_auth, Backend, wrap, backend_of, answer_dispatched, serve_api}
use clean_architecture_cpp.Api.Routes.{served_by, endpoint_of, serve_api-served_by}
use clean_architecture_cpp.Api.Serving.{on_read-LoginLeaves}
use clean_architecture_cpp.Tests.Logins.{database, crypto, json, flat, sent}
use clean_architecture_cpp.Tests.Serving.{first, length_header}
use clean_architecture_cpp.Tests.Sessions.{
  entries, Any, entries-IsStore, words, pack, unpack, unpack-pack, bob, member,
}
use clean_architecture_cpp.Tests.Storing.{Entries, lookup}

abbrev pub dump : Text → Text → Option Text
dump id name = some (id ++ name)

abbrev pub backend : Backend Entries ℕ
backend = record { store = []; users = 1; draws = 0 }

abbrev pub login_request : Request
login_request = record (fresh_request 1 1) {
  method = codes "POST";
  uri = codes "/api/auth/login";
  body = codes "password";
}

serve_api-served_by_example :
    serve_api entries words database crypto json flat pack unpack dump 1 login_request
      fresh_response backend
    ≡ answer_dispatched entries words database crypto json flat pack unpack dump 1 login_request
        fresh_response backend
        (answer fresh_response (served_by login_request))
serve_api-served_by_example =
    serve_api-served_by entries words database crypto json flat pack unpack dump 1 login_request
      fresh_response backend

abbrev post_login : Head
post_login = record {
  method = codes "POST";
  target = codes "/api/auth/login";
  major = 1;
  minor = 1;
  headers = length_header (codes "8") ∷ [];
}

post_login-IsHead : IsHead post_login
unfolding is_tspecial is_ctl is_char
post_login-IsHead = record {
  method_some = refl;
  method_token = ground arith;
  target_plain = ground arith;
  major_small = omega arith;
  minor_small = omega arith;
  headers_good =
      (record { named = refl; name_token = ground arith; value_plain = ground arith }, tt);
}

abbrev announced : Request
announced = record (with_head (fresh_request 0 0) post_login) { content_len = pos 8 }

announced-take_headers :
    take_headers 0 post_login.headers (with_head first.req post_login) ≡ ret announced
unfolding take_headers take_header iequals tolower stoi read_signed
announced-take_headers = refl

served_by-login : served_by (record announced { body = codes "password" }) ≡ some login_auth
unfolding served_by endpoint_of text_eq starts_with before_query split
served_by-login = refl

on_read-LoginLeaves_example :
    let req = record announced { body = codes "password" } in
    let w = wrap req first.res backend in
    (w' : World Entries ℕ) × (on_read
        (serve_api entries words database crypto json flat pack unpack dump 1)
        first
        (lay_out post_login (codes "password"))
        false
        backend
      ≡ ret (record (parsed first w'.request.req) { res = w'.request.res }, writing, backend_of w'))
    × LoginLeaves entries words database crypto json flat pack unpack 1 Any lookup entries-IsStore
        (accepted crypto (codes "password") (value bob))
        w
        w'
    × (w'.users ≡ 1)
unfolding parse_body text_eq get_session_id verify_password
on_read-LoginLeaves_example =
    on_read-LoginLeaves entries words database crypto json flat pack unpack dump 1 Any lookup
      entries-IsStore first post_login (codes "password") backend announced sent (value bob) 1 0
      refl refl (refl, refl, refl) post_login-IsHead announced-take_headers (omega arith)
      served_by-login tt tt refl refl refl refl (λ e. cc) (omega arith) refl

current_user-shown_example :
    (x' : WrapperRequest Entries) × (current_user entries words pack unpack dump member ≡ ran tt x')
    × (x'.res
        ≡ shown entries words pack unpack dump Any lookup entries-IsStore
            (λ id name. id ++ name)
            (some bob)
            member.res)
    × ((j : Text) → lookup x'.store j ≡ lookup member.store j)
unfolding text_eq
current_user-shown_example =
    current_user-shown entries words pack unpack dump Any lookup entries-IsStore
      (λ id name. id ++ name) member (some bob) tt refl (refl, tt) refl unpack-pack
      (λ id name. refl)
      ((refl, tt), (refl, (refl, (refl, (refl, (refl, (refl, (refl, (refl, tt)))))))))
