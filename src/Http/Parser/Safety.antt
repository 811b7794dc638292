-- ===== src/Http/Parser/Safety.antt =====
-- request_parser.cpp: what holds of the request at every byte, whatever the bytes are.
use clean_architecture_cpp.Base.{
  ℕ, ◌≡◌, refl, Bool, true, false, List, [], ◌∷◌, Text, All, All-append, push_back, is_empty, arith,
}
use clean_architecture_cpp.Http.Message.{Header, Request}
use clean_architecture_cpp.Http.Parser.{
  State, method_start, method, uri, header_line_start, header_lws, header_name,
  space_before_header_value, header_value, expecting_newline_2, is_ctl, is_no_token, change_back,
  push_name, push_value, consume, parse,
}

abbrev pub IsToken : ℕ → Type 0
IsToken c = is_no_token c ≡ false

abbrev pub IsNoControl : ℕ → Type 0
IsNoControl c = is_ctl c ≡ false

-- A header has a name of token characters, and no control character in its value.
pub record IsHeader (h : Header) : Type 0 where
  pub named : is_empty h.name ≡ false
  pub name_token : All IsToken h.name
  pub value_plain : All IsNoControl h.value

-- The states in which the parser writes to `headers.back()`, or comes back to them.
abbrev pub writes_back : State → Bool
writes_back header_lws = true
writes_back header_name = true
writes_back space_before_header_value = true
writes_back header_value = true
writes_back expecting_newline_2 = true
writes_back _ = false

pub record IsSafe (s : State) (req : Request) : Type 0 where
  pub method_token : All IsToken req.method
  pub uri_plain : All IsNoControl req.uri
  pub headers_safe : All IsHeader req.headers
  pub has_back : writes_back s ≡ true → is_empty req.headers ≡ false

All-push_back {ℓ κ} :
    {A : Type ℓ} (P : A → Type κ) (xs : List A) (x : A) → All P xs → P x → All P (push_back xs x)
All-push_back P xs x h p = All-append P xs (x ∷ []) h (p, tt)

is_empty-push_back {ℓ} : {A : Type ℓ} (xs : List A) (x : A) → is_empty (push_back xs x) ≡ false
is_empty-push_back [] x = refl
is_empty-push_back (y ∷ xs) x = refl

push_name-IsHeader : (c : ℕ) (h : Header) → IsToken c → IsHeader h → IsHeader (push_name c h)
push_name-IsHeader c h t v = record {
  named = is_empty-push_back h.name c;
  name_token = All-push_back IsToken h.name c v.name_token t;
  value_plain = v.value_plain;
}

push_value-IsHeader : (c : ℕ) (h : Header) → IsNoControl c → IsHeader h → IsHeader (push_value c h)
push_value-IsHeader c h t v = record {
  named = v.named;
  name_token = v.name_token;
  value_plain = All-push_back IsNoControl h.value c v.value_plain t;
}

change_back-IsHeader :
    (f : Header → Header) (hs : List Header)
    → ((h : Header) → IsHeader h → IsHeader (f h))
    → All IsHeader hs
    → All IsHeader (change_back f hs)
unfolding change_back
change_back-IsHeader f [] k h = tt
change_back-IsHeader f (x ∷ []) k (p, h) = (k x p, tt)
change_back-IsHeader f (x ∷ y ∷ hs) k (p, h) = (p, change_back-IsHeader f (y ∷ hs) k h)

is_empty-change_back :
    (f : Header → Header) (hs : List Header) → is_empty (change_back f hs) ≡ is_empty hs
unfolding change_back
is_empty-change_back f [] = refl
is_empty-change_back f (x ∷ []) = refl
is_empty-change_back f (x ∷ y ∷ hs) = refl

headers-push_name :
    (req : Request) (c : ℕ)
    → IsToken c
    → All IsHeader req.headers
    → All IsHeader (change_back (push_name c) req.headers)
headers-push_name req c t h =
    change_back-IsHeader (push_name c) req.headers (λ k. push_name-IsHeader c k t) h

headers-push_value :
    (req : Request) (c : ℕ)
    → IsNoControl c
    → All IsHeader req.headers
    → All IsHeader (change_back (push_value c) req.headers)
headers-push_value req c t h =
    change_back-IsHeader (push_value c) req.headers (λ k. push_value-IsHeader c k t) h

headers-push_new :
    (req : Request) (c : ℕ)
    → IsToken c
    → All IsHeader req.headers
    → All IsHeader (push_back req.headers (record { name = c ∷ []; value = [] }))
headers-push_new req c t h =
    All-push_back IsHeader req.headers (record { name = c ∷ []; value = [] }) h
      (record { named = refl; name_token = (t, tt); value_plain = tt })

-- One byte keeps the request safe.
consume-IsSafe :
    (s : State) (req : Request) (c : ℕ)
    → IsSafe s req
    → IsSafe (consume s req c).1 (consume s req c).2
unfolding consume
consume-IsSafe method_start req c v = ground (arith, All-push_back IsToken req.method c)
consume-IsSafe method req c v = ground (arith, All-push_back IsToken req.method c)
consume-IsSafe uri req c v = ground (arith, All-push_back IsNoControl req.uri c)
consume-IsSafe header_line_start req c v = ground (
  arith,
  headers-push_new req c,
  is_empty-push_back req.headers (record { name = c ∷ []; value = [] }),
)
consume-IsSafe header_lws req c v =
    ground (arith, headers-push_value req c, is_empty-change_back (push_value c) req.headers)
consume-IsSafe header_name req c v =
    ground (arith, headers-push_name req c, is_empty-change_back (push_name c) req.headers)
consume-IsSafe header_value req c v =
    ground (arith, headers-push_value req c, is_empty-change_back (push_value c) req.headers)
consume-IsSafe _ req c v = ground arith

-- However the bytes are chosen, from a state in which that holds, the method and the header names hold token characters only, the
-- target and the header values hold no control character, every header is named, and no state that
-- writes to the last header is reached while there is none.
pub parse-IsSafe :
    (s : State) (req : Request) (bytes : Text)
    → IsSafe s req
    → IsSafe (parse s req bytes).state (parse s req bytes).request
unfolding parse
parse-IsSafe s req [] v = v
parse-IsSafe s req (c ∷ bytes) v =
    let (result, next, changed) = consume s req c in
    let v' : IsSafe next changed = consume-IsSafe s req c v in
    ground (arith, parse-IsSafe next changed bytes v')
