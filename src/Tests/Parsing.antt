-- ===== src/Tests/Parsing.antt =====
-- Runs of the theorems on request_parser.cpp, cookie.hpp and response.cpp.
use clean_architecture_cpp.Base.{◌≡◌, refl, false, [], ◌∷◌, codes, arith}
use clean_architecture_cpp.Http.Message.{Header, fresh_request, Cookie}
use clean_architecture_cpp.Http.Parser.{
  good, method_start, expecting_newline_3, parse, is_tspecial, is_ctl, is_char,
}
use clean_architecture_cpp.Http.Parser.Safety.{IsSafe, IsHeader, parse-IsSafe}
use clean_architecture_cpp.Http.Parser.Formats.{Head, IsHead, lay_out}
use clean_architecture_cpp.Http.Parser.RoundTrip.{with_head, parse-lay_out}
use clean_architecture_cpp.Http.Parser.Chunks.{feed, join, feed-join}
use clean_architecture_cpp.Base.Integer.{pos}

abbrev pub host : Header
host = record { name = codes "Host"; value = codes "a" }

abbrev pub login_head : Head
login_head = record {
  method = codes "POST";
  target = codes "/api/auth";
  major = 1;
  minor = 1;
  headers = host ∷ [];
}

host-IsHeader : IsHeader host
unfolding is_tspecial is_ctl is_char
host-IsHeader = record {
  named = refl;
  name_token = (refl, (refl, (refl, (refl, tt))));
  value_plain = (refl, tt);
}

pub login_head-IsHead : IsHead login_head
unfolding is_tspecial is_ctl is_char
login_head-IsHead = record {
  method_some = refl;
  method_token = (refl, (refl, (refl, (refl, tt))));
  target_plain = ground arith;
  major_small = omega arith;
  minor_small = omega arith;
  headers_good = (host-IsHeader, tt);
}

parse-lay_out_example :
    parse method_start (fresh_request 0 0) (lay_out login_head (codes "{}")) ≡ record {
      result = good;
      rest = codes "{}";
      state = expecting_newline_3;
      request = with_head (fresh_request 0 0) login_head;
    }
parse-lay_out_example =
    parse-lay_out (fresh_request 0 0) login_head (codes "{}") (refl, refl, refl) login_head-IsHead

parse-IsSafe_example :
    IsSafe
      (parse method_start (fresh_request 0 0) (codes "GET /")).state
      (parse method_start (fresh_request 0 0) (codes "GET /")).request
parse-IsSafe_example =
    parse-IsSafe method_start (fresh_request 0 0) (codes "GET /")
      (record { method_token = tt; uri_plain = tt; headers_safe = tt; has_back = λ e. absurd (cc) })

feed-join_example :
    ((feed method_start (fresh_request 0 0) (codes "GE" ∷ codes "T /" ∷ [])).result
      ≡ (parse method_start (fresh_request 0 0) (join (codes "GE" ∷ codes "T /" ∷ []))).result)
    × ((feed method_start (fresh_request 0 0) (codes "GE" ∷ codes "T /" ∷ [])).state
        ≡ (parse method_start (fresh_request 0 0) (join (codes "GE" ∷ codes "T /" ∷ []))).state)
    × ((feed method_start (fresh_request 0 0) (codes "GE" ∷ codes "T /" ∷ [])).request
        ≡ (parse method_start (fresh_request 0 0) (join (codes "GE" ∷ codes "T /" ∷ []))).request)
feed-join_example = feed-join method_start (fresh_request 0 0) (codes "GE" ∷ codes "T /" ∷ [])

abbrev printed_cookie : Cookie
printed_cookie = record {
  name = codes "SESSION";
  value = codes "abc";
  path = codes "/";
  domain = [];
  same_site = codes "strict";
  max_age = pos 3600;
  secure = false;
  http_only = false;
  cookie_value = [];
}
