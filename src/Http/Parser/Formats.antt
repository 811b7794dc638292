-- ===== src/Http/Parser/Formats.antt =====
-- request_parser.cpp: the parser reads back the request heads that are laid out as HTTP/1 asks.
use clean_architecture_cpp.Base.{
  ℕ, ◌<◌, ◌^◌, ◌≡◌, ◌≢◌, false, List, [], ◌∷◌, ◌++◌, Text, codes, All, is_empty, arith,
}
use clean_architecture_cpp.Base.Decimal.{to_string}
use clean_architecture_cpp.Http.Message.{Header}
use clean_architecture_cpp.Http.Parser.{is_char, is_ctl, is_tspecial}
use clean_architecture_cpp.Http.Parser.Safety.{IsToken, IsNoControl, IsHeader}

-- The parts of a request head.
pub record Head : Type 0 where
  pub method : Text
  pub target : Text
  pub major : ℕ
  pub minor : ℕ
  pub headers : List Header

abbrev pub crlf : Text → Text
crlf rest = 13 ∷ 10 ∷ rest

abbrev pub lay_out_headers : List Header → Text → Text
lay_out_headers [] rest = crlf rest
lay_out_headers (h ∷ hs) rest = h.name ++ b':' ∷ 32 ∷ (h.value ++ crlf (lay_out_headers hs rest))

-- The bytes of a head, before `rest`.
unfoldable pub lay_out : Head → Text → Text
lay_out h rest =
    h.method
    ++ 32
      ∷ (h.target
          ++ 32
            ∷ (codes "HTTP/"
                ++ (to_string h.major
                    ++ b'.' ∷ (to_string h.minor ++ crlf (lay_out_headers h.headers rest)))))

abbrev pub IsTarget : ℕ → Type 0
IsTarget c = (is_ctl c ≡ false) × (c ≢ 32)

pub record IsHead (h : Head) : Type 0 where
  pub method_some : is_empty h.method ≡ false
  pub method_token : All IsToken h.method
  pub target_plain : All IsTarget h.target
  pub major_small : h.major < 2 ^ 32
  pub minor_small : h.minor < 2 ^ 32
  pub headers_good : All IsHeader h.headers

pub token-ne-space : (c : ℕ) → IsToken c → c ≢ 32
unfolding is_tspecial is_ctl is_char
token-ne-space c t = ground arith

pub token-ne-colon : (c : ℕ) → IsToken c → c ≢ b':'
unfolding is_tspecial is_ctl is_char
token-ne-colon c t = ground arith

pub token-ne-return : (c : ℕ) → IsToken c → c ≢ 13
unfolding is_tspecial is_ctl is_char
token-ne-return c t = ground arith

pub token-ne-tab : (c : ℕ) → IsToken c → c ≢ 9
unfolding is_tspecial is_ctl is_char
token-ne-tab c t = ground arith

pub no_control-ne-return : (c : ℕ) → IsNoControl c → c ≢ 13
unfolding is_ctl
no_control-ne-return c t = ground arith
