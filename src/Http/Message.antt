-- ===== src/Http/Message.antt =====
-- src/wrappers/http/header.hpp, request.hpp, and the data of cookie.hpp, response.hpp and router.hpp.
use clean_architecture_cpp.Base.{ℕ, Bool, Text, codes, List, []}
use clean_architecture_cpp.Base.Integer.{ℤ, negsuc}

pub record Header : Type 0 where
  pub name : Text
  pub value : Text

-- The two version numbers are the bit patterns of the 32-bit `int`s.
pub record Request : Type 0 where
  pub method : Text
  pub uri : Text
  pub http_version_major : ℕ
  pub http_version_minor : ℕ
  pub content_len : ℤ
  pub content_type : Text
  pub body : Text
  pub session_id : Text
  pub headers : List Header
  pub cookies : List (Text × Text)

-- A request as its connection makes it; the two version numbers are not initialised there.
abbrev pub fresh_request : ℕ → ℕ → Request
fresh_request major minor = record {
  method = [];
  uri = [];
  http_version_major = major;
  http_version_minor = minor;
  content_len = negsuc 0;
  content_type = [];
  body = [];
  session_id = [];
  headers = [];
  cookies = [];
}

pub record Cookie : Type 0 where
  pub name : Text
  pub value : Text
  pub path : Text
  pub domain : Text
  pub same_site : Text
  pub max_age : ℤ
  pub secure : Bool
  pub http_only : Bool
  pub cookie_value : Text

pub data ContentType : Type 0 where
  application_json text_html : ContentType

pub record Response : Type 0 where
  pub status : ℕ
  pub headers : List Header
  pub cookies : List Cookie
  pub content : Text
  pub content_length : Text
  pub content_type : ContentType

-- A response as its default member initialisers make it.
abbrev pub fresh_response : Response
fresh_response = record {
  status = 200;
  headers = [];
  cookies = [];
  content = [];
  content_length = codes "0";
  content_type = application_json;
}
