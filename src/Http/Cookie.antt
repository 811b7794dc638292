-- ===== src/Http/Cookie.antt =====
-- src/wrappers/http/cookie.hpp: the value of a `Set-Cookie` header.
use clean_architecture_cpp.Base.{
  Bool, false, ◌≡◌, refl, if◌then◌else◌, [], ◌∷◌, ◌++◌, Text, codes, concat, is_empty, arith,
}
use clean_architecture_cpp.Base.Integer.{ℤ, pos, negsuc, print}
use clean_architecture_cpp.Http.Message.{Cookie}

-- `if (!text.empty()) { val.append(label + text); }`
abbrev with_text : Text → Text → Text
with_text label text = if is_empty text then [] else label ++ text

-- `if (max_age > -1) { … }`
abbrev with_max_age : ℤ → Text
with_max_age (pos n) = codes "; MaxAge=" ++ print (pos n)
with_max_age (negsuc n) = []

abbrev with_flag : Bool → Text → Text
with_flag flag label = if flag then label else []

-- The text that `to_string` composes of a named cookie.
unfoldable pub compose : Cookie → Text
compose c = concat (
    c.name
    ∷ codes "="
    ∷ c.value
    ∷ with_text (codes "; Path=") c.path
    ∷ with_text (codes "; Domain=") c.domain
    ∷ with_text (codes "; SameSite=") c.same_site
    ∷ with_max_age c.max_age
    ∷ with_flag c.secure (codes "; Secure")
    ∷ with_flag c.http_only (codes "; HttpOnly")
    ∷ [])

-- `cookie::to_string`, which keeps its result in `cookie_value`.
unfoldable pub to_string : Cookie → Text × Cookie
to_string c =
    if is_empty c.cookie_value
    then (if is_empty c.name
        then ([], record c { cookie_value = [] })
        else (compose c, record c { cookie_value = compose c }))
    else (c.cookie_value, c)

is_empty-append : (s t : Text) → is_empty s ≡ false → is_empty (s ++ t) ≡ false
is_empty-append [] t h = absurd (cc)
is_empty-append (c ∷ s) t h = refl

is_empty-compose : (c : Cookie) → is_empty c.name ≡ false → is_empty (compose c) ≡ false
unfolding compose
is_empty-compose c h = is_empty-append c.name _ h

-- Printing a cookie a second time gives the text of the first time and changes nothing more.
pub to_string-to_string : (c : Cookie) → to_string (to_string c).1 ≡ to_string c
unfolding to_string
to_string-to_string c = ground (arith, is_empty-compose c)
