-- ===== src/Adapters/Wrapper/Statuses.antt =====
-- src/adapters/http/build.hpp and wrapper.cpp: the statuses that a handler can give.
use clean_architecture_cpp.Base.{ℕ, ◌==◌, ◌≡◌, ◌∙◌, refl, if◌then◌else◌, Text}
use clean_architecture_cpp.Http.Message.{Response}
use clean_architecture_cpp.Http.Response.{status_codes, status_line}
use clean_architecture_cpp.Http.Response.Stock.{contains, status_code, status_code-status_line}
use clean_architecture_cpp.Store.Redis.{c_string}
use clean_architecture_cpp.Adapters.Wrapper.{set_body, set_status}

pub data ResponseStatus : Type 0 where
  ok created no_content bad_request unauthorized forbidden not_found : ResponseStatus
  internal_server_error : ResponseStatus

-- `static_cast<int>`
unfoldable pub code_of : ResponseStatus → ℕ
code_of ok = 200
code_of created = 201
code_of no_content = 204
code_of bad_request = 400
code_of unauthorized = 401
code_of forbidden = 403
code_of not_found = 404
code_of internal_server_error = 500

-- `set_status_impl`
unfoldable pub set_status_impl : ResponseStatus → Response → Response
unfolding set_status code_of
set_status_impl status res = set_status (code_of status) res

-- `set_body_impl` of a text in C.
unfoldable pub set_body_chars : Text → Response → Response
unfolding set_body c_string
set_body_chars body res = set_body (c_string body) res

code_of-known :
    (s : ResponseStatus)
    → (if code_of s == 303
        then 304
        else if contains status_codes (code_of s)
        then code_of s
        else 500)
      ≡ code_of s
unfolding code_of
code_of-known ok = refl
code_of-known created = refl
code_of-known no_content = refl
code_of-known bad_request = refl
code_of-known unauthorized = refl
code_of-known forbidden = refl
code_of-known not_found = refl
code_of-known internal_server_error = refl

-- Every status that a handler can give is sent in the status line as that status.
pub status_code-set_status_impl :
    (status : ResponseStatus) (res : Response)
    → status_code (status_line (set_status_impl status res).status) ≡ code_of status
unfolding set_status_impl set_status
status_code-set_status_impl status res =
    status_code-status_line (code_of status) ∙ code_of-known status
