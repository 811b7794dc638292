-- ===== src/Http/Response.antt =====
-- src/wrappers/http/response.hpp and response.cpp: the bytes of a response, and the stock responses.
pub mod Stock
use clean_architecture_cpp.Base.{
  ℕ, ◌==◌, not, if◌then◌else◌, List, [], ◌∷◌, ◌++◌, Text, codes, concat, push_back, length,
}
use clean_architecture_cpp.Base.Decimal.{to_string}
use clean_architecture_cpp.Http.Message.{
  Header, Cookie, Response, ContentType, application_json, text_html, fresh_response,
}
use clean_architecture_cpp.Http.Cookie

abbrev pub crlf : Text
crlf = 13 ∷ 10 ∷ []

-- A `switch` over the status codes.
abbrev pub switch {ℓ} : {A : Type ℓ} → ℕ → List (ℕ × A) → A → A
switch status [] other = other
switch status ((code, a) ∷ table) other = if status == code then a else switch status table other

-- The constants `STATUS_…` of response.hpp.
abbrev pub status_codes : List ℕ
status_codes =
    200 ∷ 201 ∷ 202 ∷ 204 ∷ 300 ∷ 301 ∷ 302 ∷ 303 ∷ 400 ∷ 401 ∷ 403 ∷ 404 ∷ 500 ∷ 501 ∷ 502 ∷ 503
    ∷ []

abbrev pub status_strings : List (ℕ × Text)
status_strings =
    (200, codes "HTTP/1.1 200 OK" ++ crlf)
    ∷ (201, codes "HTTP/1.1 201 Created" ++ crlf)
    ∷ (202, codes "HTTP/1.1 202 Accepted" ++ crlf)
    ∷ (204, codes "HTTP/1.1 204 No Content" ++ crlf)
    ∷ (300, codes "HTTP/1.1 300 Multiple Choices" ++ crlf)
    ∷ (301, codes "HTTP/1.1 301 Moved Permanently" ++ crlf)
    ∷ (302, codes "HTTP/1.1 302 Moved Temporarily" ++ crlf)
    ∷ (303, codes "HTTP/1.1 304 Not Modified" ++ crlf)
    ∷ (400, codes "HTTP/1.1 400 Bad Request" ++ crlf)
    ∷ (401, codes "HTTP/1.1 401 Unauthorized" ++ crlf)
    ∷ (403, codes "HTTP/1.1 403 Forbidden" ++ crlf)
    ∷ (404, codes "HTTP/1.1 404 Not Found" ++ crlf)
    ∷ (500, codes "HTTP/1.1 500 Internal Server Error" ++ crlf)
    ∷ (501, codes "HTTP/1.1 501 Not Implemented" ++ crlf)
    ∷ (502, codes "HTTP/1.1 502 Bad Gateway" ++ crlf)
    ∷ (503, codes "HTTP/1.1 503 Service Unavailable" ++ crlf)
    ∷ []

-- `status_strings::to_buffer`
unfoldable pub status_line : ℕ → Text
status_line status =
    switch status status_strings (codes "HTTP/1.1 500 Internal Server Error" ++ crlf)

-- `misc_strings::content_type_strings`
abbrev pub content_type_string : ContentType → Text
content_type_string application_json = codes "application/json"
content_type_string text_html = codes "text/html"

abbrev pub header_buffers : List Header → List Text
header_buffers [] = []
header_buffers (h ∷ hs) = h.name ∷ codes ": " ∷ h.value ∷ crlf ∷ header_buffers hs

-- Each cookie is printed, and keeps what was printed.
abbrev pub cookie_buffers : List Cookie → List Text
cookie_buffers [] = []
cookie_buffers (c ∷ cs) = codes "Set-Cookie: " ∷ (Cookie.to_string c).0 ∷ crlf ∷ cookie_buffers cs

abbrev pub printed_cookies : List Cookie → List Cookie
printed_cookies [] = []
printed_cookies (c ∷ cs) = (Cookie.to_string c).1 ∷ printed_cookies cs

abbrev pub length_buffers : Response → List Text
length_buffers res =
    if res.status == 204
    then []
    else codes "Content-Type: "
      ∷ content_type_string res.content_type
      ∷ crlf
      ∷ codes "Content-Length: "
      ∷ res.content_length
      ∷ crlf
      ∷ []

-- `response::to_buffers`: the buffers, and the response with its printed cookies.
unfoldable pub to_buffers : Response → List Text × Response
to_buffers res = (
  (status_line res.status ∷ [])
      ++ (header_buffers res.headers
          ++ (cookie_buffers res.cookies ++ (length_buffers res ++ crlf ∷ res.content ∷ []))),
  record res { cookies = printed_cookies res.cookies },
)

-- What `asio::async_write` sends of a response.
unfoldable pub wire : Response → Text
wire res = concat (to_buffers res).0

unfoldable pub page : Text → Text → Text
page title heading = concat (
    codes "<html><head><title>"
    ∷ title
    ∷ codes "</title></head><body><h1>"
    ∷ heading
    ∷ codes "</h1></body></html>"
    ∷ [])

abbrev pub stock_pages : List (ℕ × Text)
stock_pages =
    (200, [])
    ∷ (201, page (codes "Created") (codes "201 Created"))
    ∷ (202, page (codes "Accepted") (codes "202 Accepted"))
    ∷ (204, page (codes "No Content") (codes "204 Content"))
    ∷ (300, page (codes "Multiple Choices") (codes "300 Multiple Choices"))
    ∷ (301, page (codes "Moved Permanently") (codes "301 Moved Permanently"))
    ∷ (302, page (codes "Moved Temporarily") (codes "302 Moved Temporarily"))
    ∷ (303, page (codes "Not Modified") (codes "304 Not Modified"))
    ∷ (400, page (codes "Bad Request") (codes "400 Bad Request"))
    ∷ (401, page (codes "Unauthorized") (codes "401 Unauthorized"))
    ∷ (403, page (codes "Forbidden") (codes "403 Forbidden"))
    ∷ (404, page (codes "Not Found") (codes "404 Not Found"))
    ∷ (500, page (codes "Internal Server Error") (codes "500 Internal Server Error"))
    ∷ (501, page (codes "Not Implemented") (codes "501 Not Implemented"))
    ∷ (502, page (codes "Bad Gateway") (codes "502 Bad Gateway"))
    ∷ (503, page (codes "Service Unavailable") (codes "503 Service Unavailable"))
    ∷ []

-- `stock_responses::to_string`
unfoldable pub stock_page : ℕ → Text
stock_page status =
    switch status stock_pages
      (page (codes "Internal Server Error") (codes "500 Internal Server Error"))

-- `response::stock_response`
unfoldable pub stock_response : ℕ → Response
stock_response status =
    let content = stock_page status in
    record fresh_response {
      status = status;
      content = content;
      headers =
          record { name = codes "Content-Length"; value = to_string (length content) }
          ∷ record { name = codes "Content-Type"; value = codes "text/html" }
          ∷ [];
    }
