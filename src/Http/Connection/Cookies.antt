-- ===== src/Http/Connection/Cookies.antt =====
-- connection.cpp, `parse_cookie`: the cookies of a request.
use clean_architecture_cpp.Base.{
  ℕ, zero, suc, ◌+◌, ◌-◌, ◌≤◌, ◌<◌, ◌≡◌, refl, sym, ◌∙◌, Bool, true, false, List, [], ◌∷◌, ◌++◌,
  append-nil, append_assoc, Text, length, length-append, length-drop, drop, Lacks, past_end,
  find_first, substr_first, substr_from_first, last_piece, next_piece, drop-append_le, Throws, ret,
  throw, out_of_range, All, arith, ap, Option, none, some, codes, text_eq, text_eq_iff, Bool-cases,
  inl, inr, if◌then◌else◌,
}
use clean_architecture_cpp.Http.Message.{Request}
use clean_architecture_cpp.Http.Connection.{
  put, parse_pair, parse_cookie_from, parse_cookie, store_cookie,
}

-- A cookie as a client writes it, and a list of them.
abbrev pub pair_text : Text × Text → Text
pair_text (k, v) = k ++ b'=' ∷ v

abbrev pub cookie_text : Text × Text → List (Text × Text) → Text → Text
cookie_text p [] rest = pair_text p ++ rest
cookie_text p (q ∷ pairs) rest = pair_text p ++ b';' ∷ 32 ∷ cookie_text q pairs rest

abbrev pub store_all : List (Text × Text) → Request → Request
store_all [] req = req
store_all ((k, v) ∷ pairs) req = store_all pairs (store_cookie k v req)

abbrev pub IsPair : Text × Text → Type 0
IsPair (k, v) = Lacks b'=' k × Lacks b';' (pair_text (k, v))

parse_pair-pair_text :
    (k v : Text) (req : Request)
    → Lacks b'=' k
    → parse_pair (pair_text (k, v)) req ≡ ret (store_cookie k v req)
unfolding parse_pair
parse_pair-pair_text k v req h =
    rw (find_first b'=' k v h, parse_pair, substr_first b'=' k v h, substr_from_first b'=' k v h)

-- What follows the cookies: nothing, or a lone semicolon.
abbrev ending : Bool → Text
ending true = b';' ∷ []
ending false = []

abbrev outcome : Bool → Request → Throws Request
outcome true req = throw out_of_range
outcome false req = ret req

parse_cookie_from-next :
    (fuel : ℕ) (s : Text) (start : ℕ) (k v rest : Text) (req : Request)
    → start ≤ length s
    → drop start s ≡ pair_text (k, v) ++ b';' ∷ rest
    → IsPair (k, v)
    → parse_cookie_from (suc fuel) s start req
      ≡ parse_cookie_from fuel s (start + length (pair_text (k, v)) + 2) (store_cookie k v req)
unfolding parse_cookie_from
parse_cookie_from-next fuel s start k v rest req le e (h, g) =
    let (f, t) = next_piece b';' s start le (pair_text (k, v)) rest e g in
    rw (f, parse_cookie_from, t, parse_pair-pair_text k v req h)

parse_cookie_from-past :
    (fuel : ℕ) (s : Text) (start : ℕ) (req : Request)
    → 0 < fuel
    → length s < start
    → parse_cookie_from fuel s start req ≡ throw out_of_range
unfolding parse_cookie_from
parse_cookie_from-past zero s start req h lt = elim h [ ]
parse_cookie_from-past (suc fuel) s start req h lt =
    let (f, t) = past_end b';' s start lt in rw (f, parse_cookie_from, t)

drop-length {ℓ} :
    {A : Type ℓ} (start : ℕ) (s p rest : List A)
    → start ≤ length s
    → drop start s ≡ p ++ rest
    → length s ≡ start + length p + length rest
drop-length start s p rest le e =
    omega (arith, ap length e, length-drop start s, length-append p rest)

drop-skip :
    (start : ℕ) (s p rest : Text)
    → drop start s ≡ p ++ b';' ∷ 32 ∷ rest
    → drop (start + length p + 2) s ≡ rest
drop-skip start s p rest e =
    ap (λ n. drop n s) (omega (arith, length-append p (b';' ∷ 32 ∷ [])))
    ∙ drop-append_le start s (p ++ b';' ∷ 32 ∷ []) rest
        (e ∙ sym (append_assoc p (b';' ∷ 32 ∷ []) rest))

parse_cookie_from-cookie_text :
    (trailing : Bool) (fuel : ℕ) (s : Text) (start : ℕ) (p : Text × Text)
    (pairs : List (Text × Text)) (req : Request)
    → start ≤ length s
    → length s + 1 - start < fuel
    → drop start s ≡ cookie_text p pairs (ending trailing)
    → All IsPair (p ∷ pairs)
    → parse_cookie_from fuel s start req ≡ outcome trailing (store_all (p ∷ pairs) req)
unfolding parse_cookie_from
parse_cookie_from-cookie_text trailing zero s start p pairs req le lt e h = elim lt [ ]
parse_cookie_from-cookie_text false (suc fuel) s start (k, v) [] req le lt e ((h, g), _) =
    let (f, t) = last_piece b';' s start le (pair_text (k, v)) (e ∙ append-nil _) g in
    rw (f, parse_cookie_from, t) (parse_pair-pair_text k v req h)
parse_cookie_from-cookie_text true (suc fuel) s start (k, v) [] req le lt e (h, _) =
    let size = drop-length start s (pair_text (k, v)) (b';' ∷ []) le e in
    parse_cookie_from-next fuel s start k v [] req le e h
    ∙ parse_cookie_from-past fuel s (start + length (pair_text (k, v)) + 2) (store_cookie k v req)
        (omega (arith, size)) (omega (arith, size))
parse_cookie_from-cookie_text trailing (suc fuel) s start (k, v) (q ∷ pairs) req le lt e (h, hs) =
    let rest = cookie_text q pairs (ending trailing) in
    let next = start + length (pair_text (k, v)) + 2 in
    let size = drop-length start s (pair_text (k, v)) (b';' ∷ 32 ∷ rest) le e in
    parse_cookie_from-next fuel s start k v (32 ∷ rest) req le e h
    ∙ parse_cookie_from-cookie_text trailing fuel s next q pairs (store_cookie k v req)
        (omega (arith, size)) (omega (arith, size)) (drop-skip start s (pair_text (k, v)) rest e) hs

-- What a map holds of a key.
abbrev pub lookup : Text → List (Text × Text) → Option Text
lookup j [] = none
lookup j ((k, v) ∷ map) = if text_eq k j then some v else lookup j map

-- The value of the last of some pairs with that key, or the old one.
abbrev pub last_value : Text → List (Text × Text) → Option Text → Option Text
last_value j [] old = old
last_value j ((k, v) ∷ pairs) old = last_value j pairs (if text_eq k j then some v else old)

-- What a request with some cookies is to hold: the last one named SESSION as the session id, and of
-- every other name the last one among its cookies.
pub record IsStored (pairs : List (Text × Text)) (req req' : Request) : Type 0 where
  pub session : some req'.session_id ≡ last_value (codes "SESSION") pairs (some req.session_id)
  pub others :
      (j : Text)
      → text_eq (codes "SESSION") j ≡ false
      → lookup j req'.cookies ≡ last_value j pairs (lookup j req.cookies)
  pub not_session : lookup (codes "SESSION") req'.cookies ≡ lookup (codes "SESSION") req.cookies
  pub rest_kept : req' ≡ record req { session_id = req'.session_id; cookies = req'.cookies }

differ : (i k j : Text) → i ≡ j → text_eq i k ≡ false → text_eq k j ≡ false
differ i k j same e = elim (Bool-cases (text_eq k j)) [
  | inl g ↦
      let back : text_eq i k ≡ true = (text_eq_iff i k).1 (same ∙ sym ((text_eq_iff k j).0 g)) in
      absurd (cc)
  | inr g ↦ g
]

lookup-put :
    (j k v : Text) (map : List (Text × Text))
    → lookup j (put k v map) ≡ (if text_eq k j then some v else lookup j map)
unfolding put
lookup-put j k v [] = refl
lookup-put j k v ((i, u) ∷ map) = elim (Bool-cases (text_eq i k)) [
  | inl e ↦ let same : i ≡ k = (text_eq_iff i k).0 e in rw (e, same) (ground arith)
  | inr e ↦ elim (Bool-cases (text_eq i j)) [
    | inl f ↦ let same : i ≡ j = (text_eq_iff i j).0 f in rw (e, f, differ i k j same e)
    | inr f ↦ rw (e, f) (lookup-put j k v map)
  ]
]

store_cookie-IsStored :
    (k v : Text) (req : Request) → IsStored ((k, v) ∷ []) req (store_cookie k v req)
store_cookie-IsStored k v req = elim (Bool-cases (text_eq k (codes "SESSION"))) [
  | inl e ↦
      let same = (text_eq_iff k (codes "SESSION")).0 e in
      record {
        session = rw e;
        others = λ j n. rw e (rw same (rw n refl));
        not_session = rw e;
        rest_kept = rw e;
      }
  | inr e ↦ record {
    session = rw e;
    others = λ j n. rw e (lookup-put j k v req.cookies);
    not_session = rw e (lookup-put (codes "SESSION") k v req.cookies ∙ rw e);
    rest_kept = rw e;
  }
]

store_all-IsStored :
    (pairs : List (Text × Text)) (req : Request) → IsStored pairs req (store_all pairs req)
store_all-IsStored [] req = record {
  session = refl;
  others = λ j n. refl;
  not_session = refl;
  rest_kept = refl;
}
store_all-IsStored ((k, v) ∷ pairs) req =
    let one = store_cookie-IsStored k v req in
    let more = store_all-IsStored pairs (store_cookie k v req) in
    let all = store_all pairs (store_cookie k v req) in
    record {
      session = more.session ∙ ap (last_value (codes "SESSION") pairs) one.session;
      others = λ j n. more.others j n ∙ ap (last_value j pairs) (one.others j n);
      not_session = more.not_session ∙ one.not_session;
      rest_kept =
          more.rest_kept
          ∙ ap {A = Request} {B = Request}
              (λ r. record r { session_id = all.session_id; cookies = all.cookies }) one.rest_kept;
    }

-- The cookies that a client lists are all stored, if no name holds an equals sign and no cookie a
-- semicolon: the value of the last one named SESSION becomes the session id, and under every other
-- name the map of cookies holds the value of the last one of that name. What is not named keeps what
-- it had, and nothing else in the request changes.
pub parse_cookie-cookie_text :
    (p : Text × Text) (pairs : List (Text × Text)) (req : Request)
    → All IsPair (p ∷ pairs)
    → (req' : Request) × (parse_cookie (cookie_text p pairs []) req ≡ ret req')
      × IsStored (p ∷ pairs) req req'
unfolding parse_cookie
parse_cookie-cookie_text p pairs req h =
    let s = cookie_text p pairs [] in
    (
      store_all (p ∷ pairs) req,
      parse_cookie_from-cookie_text false (length s + 2) s 0 p pairs req (omega arith) (omega arith)
          refl h,
      store_all-IsStored (p ∷ pairs) req,
    )

-- A list of cookies that ends in one more semicolon makes `parse_cookie` throw, if no name holds an
-- equals sign and no cookie a semicolon.
pub parse_cookie-trailing :
    (p : Text × Text) (pairs : List (Text × Text)) (req : Request)
    → All IsPair (p ∷ pairs)
    → parse_cookie (cookie_text p pairs (b';' ∷ [])) req ≡ throw out_of_range
unfolding parse_cookie
parse_cookie-trailing p pairs req h =
    let s = cookie_text p pairs (b';' ∷ []) in
    parse_cookie_from-cookie_text true (length s + 2) s 0 p pairs req (omega arith) (omega arith)
      refl h
