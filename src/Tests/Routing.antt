-- ===== src/Tests/Routing.antt =====
-- Runs of the theorems on request_handler.cpp, with numbers for the callbacks.
use clean_architecture_cpp.Base.{
  ℕ, ◌≡◌, refl, Bool, true, ◌&&◌, leb, arith, [], ◌∷◌, Text, codes, ret, ◌>>=◌,
}
use clean_architecture_cpp.Http.Message.{Request, fresh_request, fresh_response}
use clean_architecture_cpp.Http.Router.{Router, answer, make_request_handler, handle_request}
use clean_architecture_cpp.Http.Router.Decoding.{url_decode}
use clean_architecture_cpp.Http.Router.Decoding.Escapes.{url_encode, url_decode-url_encode}
use clean_architecture_cpp.Http.Router.Dispatch.{routed, handle_request-routed}

abbrev login_route : Router ℕ
login_route = record { method = codes "POST"; path = codes "/auth"; cb = 1 }

abbrev logout_route : Router ℕ
logout_route = record { method = codes "DELETE"; path = codes "/auth"; cb = 2 }

abbrev get : Text → Request
get uri = record (fresh_request 1 1) { method = codes "POST"; uri = uri }

handle_request-routed_example :
    (make_request_handler (login_route ∷ logout_route ∷ []) (codes "/api") >>= λ h.
    handle_request h (get (codes "/api/auth")) fresh_response)
    ≡ ret (
        answer fresh_response
          (routed (login_route ∷ logout_route ∷ []) (codes "/api") (get (codes "/api/auth"))))
handle_request-routed_example =
    handle_request-routed (login_route ∷ logout_route ∷ []) (codes "/api") (get (codes "/api/auth"))
      fresh_response (refl, (refl, tt))

abbrev small_letter : ℕ → Bool
small_letter c = leb b'a' c && leb c b'z'

url_decode-url_encode_example :
    url_decode (url_encode small_letter (codes "a+b %/Z")) ≡ (true, codes "a+b %/Z")
url_decode-url_encode_example =
    url_decode-url_encode small_letter (codes "a+b %/Z") refl refl (omega arith)
