-- ===== src/Http/Connection/Headers.antt =====
-- connection.cpp, the loop over the headers in `handle_header_buffer`: what it takes from them.
use clean_architecture_cpp.Base.{
  ℕ, ◌≤◌, ◌≡◌, refl, ap, ◌∙◌, true, false, Bool, ◌&&◌, List, [], ◌∷◌, ◌++◌, Text, codes, is_empty,
  ret, All, arith, le→ltb_false,
}
use clean_architecture_cpp.Base.Integer.{ℤ, pos, negsuc, stoi}
use clean_architecture_cpp.Utils.Strings.{iequals}
use clean_architecture_cpp.Http.Message.{Header, Request}
use clean_architecture_cpp.Http.Connection.{is_unset, parse_cookie, take_header, take_headers}
use clean_architecture_cpp.Http.Connection.Cookies.{
  IsPair, IsStored, cookie_text, parse_cookie-cookie_text,
}

-- A header of another name than the three that the loop looks for.
pub record IsOther (h : Header) : Type 0 where
  pub not_length : iequals h.name (codes "content-length") ≡ false
  pub not_type : iequals h.name (codes "content-type") ≡ false
  pub not_cookie : iequals h.name (codes "cookie") ≡ false

-- The headers of a request that announces a body of some length and type and brings some cookies,
-- in this order, among and before others; what follows is free.
pub record IsAnnounced (headers : List Header) (digits content_type cookies : Text) : Type 0 where
  pub xs : List Header
  pub ys : List Header
  pub zs : List Header
  pub rest : List Header
  pub length_name : Text
  pub type_name : Text
  pub cookie_name : Text
  pub same :
      headers
      ≡ xs
        ++ record { name = length_name; value = digits }
          ∷ (ys
              ++ record { name = type_name; value = content_type }
                ∷ (zs ++ record { name = cookie_name; value = cookies } ∷ rest))
  pub named_length : iequals length_name (codes "content-length") ≡ true
  pub named_type : iequals type_name (codes "content-type") ≡ true
  pub named_cookie : iequals cookie_name (codes "cookie") ≡ true
  pub xs_other : All IsOther xs
  pub ys_other : All IsOther ys
  pub zs_other : All IsOther zs

and_false : (a : Bool) → (a && false) ≡ false
and_false true = refl
and_false false = refl

take_header-other : (h : Header) (req : Request) → IsOther h → take_header h req ≡ ret (req, false)
unfolding take_header
take_header-other h req v = rw (
  v.not_length,
  v.not_type,
  v.not_cookie,
  and_false (is_unset req.content_len),
  and_false (is_empty req.content_type),
  and_false (is_empty req.cookies),
)

take_headers-other :
    (i : ℕ) (xs hs : List Header) (req : Request)
    → i ≤ 2
    → All IsOther xs
    → take_headers i (xs ++ hs) req ≡ take_headers i hs req
unfolding take_headers
take_headers-other i [] hs req le v = refl
take_headers-other i (x ∷ xs) hs req le (v, vs) =
    rw (take_header-other x req v) (rw (le→ltb_false 2 i le) (take_headers-other i xs hs req le vs))

take_headers-length :
    (name digits : Text) (n : ℤ) (hs : List Header) (req : Request)
    → req.content_len ≡ negsuc 0
    → iequals name (codes "content-length") ≡ true
    → stoi digits ≡ ret n
    → take_headers 0 (record { name = name; value = digits } ∷ hs) req
      ≡ take_headers 1 hs (record req { content_len = n })
unfolding take_headers take_header
take_headers-length name digits n hs req l e t = rw l (rw (e, t) refl)

take_headers-type :
    (name val : Text) (hs : List Header) (req : Request)
    → is_unset req.content_len ≡ false
    → req.content_type ≡ []
    → iequals name (codes "content-type") ≡ true
    → take_headers 1 (record { name = name; value = val } ∷ hs) req
      ≡ take_headers 2 hs (record req { content_type = val })
unfolding take_headers take_header
take_headers-type name val hs req l c e = rw l (rw c (rw e refl))

take_headers-cookie :
    (name val : Text) (hs : List Header) (req req' : Request)
    → is_unset req.content_len ≡ false
    → is_empty req.content_type ≡ false
    → req.cookies ≡ []
    → iequals name (codes "cookie") ≡ true
    → parse_cookie val req ≡ ret req'
    → take_headers 2 (record { name = name; value = val } ∷ hs) req ≡ ret req'
unfolding take_headers take_header
take_headers-cookie name val hs req req' l t c e p =
    let unset : is_empty req.cookies ≡ true = ap is_empty c in
    rw l (rw t (rw unset (rw e (rw p refl))))

-- A request without a length, a type and cookies takes them from its headers.
pub take_headers-IsAnnounced :
    (headers : List Header) (req : Request) (digits t : Text) (n : ℕ) (p : Text × Text)
    (pairs : List (Text × Text))
    → IsAnnounced headers digits t (cookie_text p pairs [])
    → req.content_len ≡ negsuc 0
    → req.content_type ≡ []
    → req.cookies ≡ []
    → stoi digits ≡ ret (pos n)
    → is_empty t ≡ false
    → All IsPair (p ∷ pairs)
    → (req' : Request) × (take_headers 0 headers req ≡ ret req')
      × IsStored (p ∷ pairs) (record req { content_len = pos n; content_type = t }) req'
take_headers-IsAnnounced headers req digits t n p pairs a l c k e some_type h =
    let req1 = record req { content_len = pos n } in
    let req2 = record req1 { content_type = t } in
    let (req', read, stored) = parse_cookie-cookie_text p pairs req2 h in
    let cookie : Header = record { name = a.cookie_name; value = cookie_text p pairs [] } in
    let hs2 = a.zs ++ cookie ∷ a.rest in
    let type : Header = record { name = a.type_name; value = t } in
    let hs1 = a.ys ++ type ∷ hs2 in
    let length : Header = record { name = a.length_name; value = digits } in
    (
      req',
      rw a.same (
          take_headers-other 0 a.xs (length ∷ hs1) req (omega arith) a.xs_other
          ∙ take_headers-length a.length_name digits (pos n) hs1 req l a.named_length e
          ∙ take_headers-other 1 a.ys (type ∷ hs2) req1 (omega arith) a.ys_other
          ∙ take_headers-type a.type_name t hs2 req1 refl c a.named_type
          ∙ take_headers-other 2 a.zs (cookie ∷ a.rest) req2 (omega arith) a.zs_other
          ∙ take_headers-cookie a.cookie_name (cookie_text p pairs []) a.rest req2 req' refl
              some_type k a.named_cookie read),
      stored,
    )
