-- ===== src/Adapters/Wrapper.antt =====
-- src/adapters/http/wrapper.hpp and wrapper.cpp. The store is any implementation of `IStore`. The
-- words of `getrandom`, by the number of the call and the index in the buffer, and the two
-- directions of flatbuffers are parameters. The log of a request is in Logging.
pub mod Sessions
pub mod Checking
pub mod Closing
pub mod Bodies
pub mod Statuses
pub mod Logging
use clean_architecture_cpp.Base.{
  ℕ, zero, suc, ◌+◌, ◌%◌, Bool, true, false, if◌then◌else◌, Option, none, some, List, [], ◌∷◌, ◌++◌,
  Text, codes, is_empty, push_back, length,
}
use clean_architecture_cpp.Base.Decimal.{to_string}
use clean_architecture_cpp.Base.Integer.{ℤ, pos}
use clean_architecture_cpp.Entities.Log.{Log, Expected, value, unexpected}
use clean_architecture_cpp.Entities.User.{User}
use clean_architecture_cpp.Http.Message.{Request, Response, Cookie, ContentType}
use clean_architecture_cpp.Store.{Run, ran, waits, crashes, ◌>>=◌, IStore}
use clean_architecture_cpp.Store.Redis.{c_string}

abbrev pub alphabet : Text
alphabet = codes "abcdefghijklmnopqrstuvwxyzABCDEFGHIJKLMNOPQRSTUVWXYZ0123456789"

abbrev pub session_prefix : Text
session_prefix = codes "sess:"

-- The byte at an index, and 0 at the end of the text.
unfoldable pub char_at : Text → ℕ → ℕ
char_at [] i = 0
char_at (c ∷ s) zero = c
char_at (c ∷ s) (suc i) = char_at s i

-- The loop that appends a letter for each of `n` words from index `i` on.
unfoldable pub letters : (ℕ → ℕ) → ℕ → ℕ → Text
unfolding char_at
letters words i zero = []
letters words i (suc n) = char_at alphabet (words i % 62) ∷ letters words (i + 1) n

-- `SESSION_ID_LENGTH` is 16.
unfoldable pub new_id : (ℕ → ℕ) → Text
unfolding letters
new_id words = letters words 0 16

-- A `WrapperRequest`: the request, the response, the state of the store, and how often `getrandom`
-- was called.
pub record WrapperRequest (S : Type 0) : Type 0 where
  pub req : Request
  pub res : Response
  pub store : S
  pub draws : ℕ

abbrev pub session_cookie : Text → ℤ → Cookie
session_cookie sid max_age = record {
  name = codes "SESSION";
  value = sid;
  path = codes "/";
  domain = [];
  same_site = codes "strict";
  max_age = max_age;
  secure = false;
  http_only = false;
  cookie_value = [];
}

abbrev pub add_cookie : {S : Type 0} → Cookie → WrapperRequest S → WrapperRequest S
add_cookie c x = record x { res = record x.res { cookies = push_back x.res.cookies c } }

-- What `make_unique<entity::User>(id, username)` makes.
abbrev pub session_user : Text → Text → User
session_user id username = record { id = id; username = username; password = []; hashed = [] }

module _ {S : Type 0} (store : IStore S) (getrandom : ℕ → ℕ → ℕ) where
  abbrev kept : {A : Type 0} → WrapperRequest S → Run A S → Run A (WrapperRequest S)
  kept x (ran a s) = ran a (record x { store = s })
  kept x waits = waits
  kept x crashes = crashes

  -- A call of the store.
  abbrev pub ask : {A : Type 0} → (S → Run A S) → WrapperRequest S → Run A (WrapperRequest S)
  ask op x = kept x (op x.store)

  -- The request with a session id of new random letters.
  abbrev pub draw : WrapperRequest S → WrapperRequest S
  draw x = record x {
    req = record x.req { session_id = new_id (getrandom x.draws) };
    draws = x.draws + 1;
  }

  unfoldable pub get_session_id : WrapperRequest S → Text × WrapperRequest S
  get_session_id x =
      if is_empty x.req.session_id
      then (new_id (getrandom x.draws), draw x)
      else (x.req.session_id, x)

  unfoldable pub get_session_key : WrapperRequest S → Text × WrapperRequest S
  unfolding get_session_id
  get_session_key x = let (id, x') = get_session_id x in (session_prefix ++ id, x')

  unfoldable pub is_auth : WrapperRequest S → Run Bool (WrapperRequest S)
  is_auth x = let (key, x') = get_session_key x in ask (store.exists key) x'

  -- The loop draws an id until its key is not in the store. Spent fuel is a loop that goes on.
  unfoldable pub get_new_session_id : ℕ → WrapperRequest S → Run Text (WrapperRequest S)
  get_new_session_id zero x = waits
  get_new_session_id (suc fuel) x =
      let (key, x') = get_session_key (draw x) in
      ask (store.exists key) x' >>= λ taken y. elim taken [
        | true ↦ get_new_session_id fuel y
        | false ↦ ran y.req.session_id y
      ]

  unfoldable pub clear_session_user : WrapperRequest S → Run Bool (WrapperRequest S)
  clear_session_user x =
      let (key, x') = get_session_key x in
      ask (store.del key) x' >>= λ cleared y.
      ran cleared (if cleared then add_cookie (session_cookie [] (pos 0)) y else y)

  module _ (encode : Text → Text → Text) (decode : Text → Option (Option Text × Option Text)) where
    unfoldable pub set_session_user :
        ℕ → User → WrapperRequest S → Run (Option Log) (WrapperRequest S)
    set_session_user fuel user x = get_new_session_id fuel x >>= λ sid y.
        let (key, y') = get_session_key y in
        ask (store.set_byte_array key (encode user.id user.username)) y' >>= λ set z.
        ran none (add_cookie (session_cookie sid (pos 3600)) z)

    -- The user of verified bytes; a string that is missing is read through a null pointer.
    abbrev pub read_user :
        Option (Option Text × Option Text) → WrapperRequest S → Run (Option User) (WrapperRequest S)
    read_user none x = ran none x
    read_user (some (some id, some username)) x =
        ran (some (session_user (c_string id) (c_string username))) x
    read_user (some _) x = crashes

    abbrev pub read_session :
        Expected (Option Text) → WrapperRequest S → Run (Option User) (WrapperRequest S)
    read_session (unexpected log) x = ran none x
    read_session (value none) x = ran none x
    read_session (value (some user_data)) x = read_user (decode user_data) x

    unfoldable pub get_session_user : WrapperRequest S → Run (Option User) (WrapperRequest S)
    get_session_user x =
        let (key, x') = get_session_key x in ask (store.get_byte_array key) x' >>= read_session

-- wrapper.cpp, on the response.
unfoldable pub set_content_type : ContentType → Response → Response
set_content_type type res = record res { content_type = type }

unfoldable pub set_body : Text → Response → Response
set_body body res = record res { content = body; content_length = to_string (length body) }

-- `append('"' + row + "\",")` for each row.
abbrev pub append_rows : Text → List Text → Text
append_rows content [] = content
append_rows content (row ∷ rows) = append_rows (content ++ b'"' ∷ (row ++ b'"' ∷ b',' ∷ [])) rows

-- `content.back() = c`, on a text that is not empty.
abbrev pub set_back : ℕ → Text → Text
set_back c [] = []
set_back c (d ∷ []) = c ∷ []
set_back c (d ∷ e ∷ s) = d ∷ set_back c (e ∷ s)

unfoldable pub set_body_rows : List Text → Response → Response
set_body_rows body res = set_body (set_back b']' (append_rows (b'[' ∷ []) body)) res

unfoldable pub set_status : ℕ → Response → Response
set_status status res = record res { status = status }
