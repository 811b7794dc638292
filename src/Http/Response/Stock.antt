-- ===== src/Http/Response/Stock.antt =====
-- response.cpp: the status lines, and the lengths that a stock response announces.
use clean_architecture_cpp.Base.{
  ℕ, ◌≡◌, ◌≢◌, refl, ◌∙◌, Bool, false, ◌||◌, ◌==◌, if◌then◌else◌, Bool-cases, inl, inr, List, [],
  ◌∷◌, ◌++◌, Text, codes, map, length, take, drop, text_eq, is_empty, arith,
}
use clean_architecture_cpp.Base.Decimal.{to_string, read_digits}
use clean_architecture_cpp.Http.Message.{Header, Response}
use clean_architecture_cpp.Http.Response.{
  switch, status_codes, status_strings, status_line, stock_pages, page, stock_page, stock_response,
}

apply_switch {ℓ κ} :
    {A : Type ℓ} {B : Type κ} (f : A → B) (s : ℕ) (table : List (ℕ × A)) (other : A)
    → f (switch s table other) ≡ switch s (map (λ e. (e.0, f e.1)) table) (f other)
apply_switch f s [] other = refl
apply_switch f s ((code, a) ∷ table) other = elim (Bool-cases (s == code)) [
  | inl e ↦ rw e
  | inr e ↦ rw e (apply_switch f s table other)
]

abbrev pub contains : List ℕ → ℕ → Bool
contains [] s = false
contains (c ∷ cs) s = s == c || contains cs s

-- The three digits behind "HTTP/1.1 ".
abbrev pub status_code : Text → ℕ
status_code line = read_digits 0 (take 3 (drop 9 line))

-- The status line carries the response's own status, if that is one of the sixteen that the server
-- defines, but for 303, which is sent as 304. Any other status is sent as 500.
pub status_code-status_line :
    (s : ℕ)
    → status_code (status_line s)
      ≡ (if s == 303 then 304 else if contains status_codes s then s else 500)
unfolding status_line read_digits
status_code-status_line s = apply_switch status_code s status_strings _ ∙ (ground arith)

-- The values of the lines `Content-Length` that `to_buffers` sends.
abbrev pub announced_in : List Header → List Text
announced_in [] = []
announced_in (h ∷ hs) =
    if text_eq h.name (codes "Content-Length") then h.value ∷ announced_in hs else announced_in hs

abbrev pub announced : Response → List Text
announced res =
    announced_in res.headers ++ (if res.status == 204 then [] else res.content_length ∷ [])

stock_page-nonempty : (s : ℕ) → s ≢ 200 → is_empty (stock_page s) ≡ false
unfolding stock_page page
stock_page-nonempty s h = apply_switch is_empty s stock_pages _ ∙ (ground arith)

-- A stock response of any status but 200 and 204 announces two lengths: that of the page, and 0, though the page is
-- not empty.
pub announced-stock_response :
    (s : ℕ)
    → s ≢ 200
    → s ≢ 204
    → (announced (stock_response s)
        ≡ to_string (length (stock_response s).content) ∷ codes "0" ∷ [])
      × (is_empty (stock_response s).content ≡ false)
unfolding stock_response text_eq
announced-stock_response s h k = (ground arith, stock_page-nonempty s h)
