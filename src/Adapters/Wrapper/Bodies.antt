-- ===== src/Adapters/Wrapper/Bodies.antt =====
-- wrapper.cpp: the bodies of responses.
use clean_architecture_cpp.Base.{
  ℕ, ◌≡◌, refl, sym, ◌∙◌, ap, List, [], ◌∷◌, ◌++◌, append_assoc, Text, length,
}
use clean_architecture_cpp.Base.Decimal.{to_string}
use clean_architecture_cpp.Http.Message.{Response}
use clean_architecture_cpp.Adapters.Wrapper.{append_rows, set_back, set_body, set_body_rows}

-- The rows in quotes with commas between them, and the closing bracket.
abbrev pub quoted : Text → Text → Text
quoted row rest = b'"' ∷ (row ++ b'"' ∷ rest)

abbrev pub closed : Text → List Text → Text
closed row [] = quoted row (b']' ∷ [])
closed row (next ∷ rows) = quoted row (b',' ∷ closed next rows)

-- The array of the rows; that of no rows is a lone bracket.
abbrev pub array_of : List Text → Text
array_of [] = b']' ∷ []
array_of (row ∷ rows) = b'[' ∷ closed row rows

set_back-append : (c d : ℕ) (s : Text) → set_back c (s ++ d ∷ []) ≡ s ++ c ∷ []
set_back-append c d [] = refl
set_back-append c d (x ∷ []) = refl
set_back-append c d (x ∷ y ∷ s) = ap (λ t. x ∷ t) (set_back-append c d (y ∷ s))

quoted-append :
    (content row rest : Text)
    → (content ++ b'"' ∷ (row ++ b'"' ∷ b',' ∷ [])) ++ rest ≡ content ++ quoted row (b',' ∷ rest)
quoted-append content row rest =
    append_assoc content (b'"' ∷ (row ++ b'"' ∷ b',' ∷ [])) rest
    ∙ ap (λ t. content ++ b'"' ∷ t) (append_assoc row (b'"' ∷ b',' ∷ []) rest)

quoted-last :
    (content row : Text) (d : ℕ)
    → (content ++ b'"' ∷ (row ++ b'"' ∷ [])) ++ d ∷ [] ≡ content ++ quoted row (d ∷ [])
quoted-last content row d =
    append_assoc content (b'"' ∷ (row ++ b'"' ∷ [])) (d ∷ [])
    ∙ ap (λ t. content ++ b'"' ∷ t) (append_assoc row (b'"' ∷ []) (d ∷ []))

set_back-append_rows :
    (content row : Text) (rows : List Text)
    → set_back b']' (append_rows content (row ∷ rows)) ≡ content ++ closed row rows
set_back-append_rows content row [] =
    ap (set_back b']') (sym (quoted-last content row b','))
    ∙ set_back-append b']' b',' (content ++ b'"' ∷ (row ++ b'"' ∷ []))
    ∙ quoted-last content row b']'
set_back-append_rows content row (next ∷ rows) =
    set_back-append_rows (content ++ b'"' ∷ (row ++ b'"' ∷ b',' ∷ [])) next rows
    ∙ quoted-append content row (closed next rows)

-- `set_body` of rows writes them in quotes, with commas between them and in brackets, but for no
-- rows, where it writes a lone closing bracket. The length that goes with it is that of the text.
pub set_body_rows-array_of :
    (rows : List Text) (res : Response)
    → set_body_rows rows res
      ≡ record res { content = array_of rows; content_length = to_string (length (array_of rows)) }
unfolding set_body_rows set_body
set_body_rows-array_of [] res = refl
set_body_rows-array_of (row ∷ rows) res = rw (set_back-append_rows (b'[' ∷ []) row rows)
