-- ===== src/Store/Redis.antt =====
-- src/interfaces/store/redis.cpp: the operations of `RedisStore`. Those on floating-point numbers are
-- over a type of such numbers, with what is read and written of them.
pub mod Laws
pub mod Typed
use clean_architecture_cpp.Base.{
  Throws, ℕ, Bool, true, false, not, ◌==◌, ltb, if◌then◌else◌, List, [], ◌∷◌, Text, codes, Option,
  none, some,
}
use clean_architecture_cpp.Base.Integer.{ℤ, pos, negsuc, print}
use clean_architecture_cpp.Entities.Log.{Log, empty_log, Expected, value, unexpected}
use clean_architecture_cpp.Utils.Strings.{to_int32, to_int64, to_float, to_double}
use clean_architecture_cpp.Pool.{Pool, Got, blocked, undefined, got, get_context, release_context}
use clean_architecture_cpp.Store.{
  IStore, Run, ran, waits, crashes, Command, get_key, set_key, exists_key, del_key,
}

-- `reply->type`, with the fields that go with it.
pub data Reply : Type 0 where
  string : Text → Reply
  nil : Reply
  integer : ℤ → Reply
  error : Text → Reply
  other : Reply

-- A `char*` ends at its first zero byte.
unfoldable pub c_string : Text → Text
c_string [] = []
c_string (c ∷ s) = if c == 0 then [] else c ∷ c_string s

abbrev pub redis_file : Text
redis_file = codes "interfaces/store/redis.cpp"

-- The end of the getters: "Unknown error", or the server's error text.
abbrev pub failure {ℓ} : {A : Type ℓ} → Text → Reply → Expected A
failure function (error str) =
    unexpected (record empty_log { msg = c_string str; file = redis_file; function = function })
failure function _ =
    unexpected
      (record empty_log { msg = codes "Unknown error"; file = redis_file; function = function })

-- A number that was read, or the error of its conversion, with the place where it was met.
abbrev pub converted {ℓ} : {A : Type ℓ} → Text → Expected A → Expected (Option A)
converted function (value z) = value (some z)
converted function (unexpected log) =
    unexpected (record log { file = redis_file; function = function })

unfoldable pub int32_of : Reply → Expected (Option ℤ)
int32_of (string str) =
    converted (codes "RedisStore::get_int32_impl(const char*)") (to_int32 (c_string str))
int32_of nil = value none
int32_of r = failure (codes "RedisStore::get_int32_impl(const char*)") r

unfoldable pub int64_of : Reply → Expected (Option ℤ)
int64_of (string str) =
    converted (codes "RedisStore::get_int64_impl(const char*)") (to_int64 (c_string str))
int64_of nil = value none
int64_of r = failure (codes "RedisStore::get_int64_impl(const char*)") r

unfoldable pub float_of : {F : Type 0} → (Text → Throws F) → Reply → Expected (Option F)
float_of stof (string str) =
    converted (codes "RedisStore::get_float_impl(const char*)") (to_float stof (c_string str))
float_of stof nil = value none
float_of stof r = failure (codes "RedisStore::get_float_impl(const char*)") r

unfoldable pub double_of : {F : Type 0} → (Text → Throws F) → Reply → Expected (Option F)
double_of stod (string str) =
    converted (codes "RedisStore::get_double_impl(const char*)") (to_double stod (c_string str))
double_of stod nil = value none
double_of stod r = failure (codes "RedisStore::get_double_impl(const char*)") r

-- `str[0] != '0'`, where an empty text has a zero byte.
abbrev starts_with_zero : Text → Bool
starts_with_zero [] = false
starts_with_zero (c ∷ s) = c == b'0'

unfoldable pub bool_of : Reply → Expected (Option Bool)
bool_of (string str) = value (some (not (starts_with_zero str)))
bool_of nil = value none
bool_of r = failure (codes "RedisStore::get_double_impl(const char*)") r

unfoldable pub string_of : Reply → Expected (Option Text)
string_of (string str) = value (some (c_string str))
string_of nil = value none
string_of r = failure (codes "RedisStore::get_double_impl(const char*)") r

unfoldable pub byte_array_of : Reply → Expected (Option Text)
byte_array_of (string str) = value (some str)
byte_array_of nil = value none
byte_array_of r = failure (codes "RedisStore::get_double_impl(const char*)") r

-- `reply->type != REDIS_REPLY_ERROR`
unfoldable pub is_set : Reply → Bool
is_set (error str) = false
is_set r = true

abbrev is_positive : ℤ → Bool
is_positive (pos n) = ltb 0 n
is_positive (negsuc n) = false

-- The answer of `exists_impl` and `del_impl`.
unfoldable pub is_counted : Reply → Bool
is_counted (integer n) = is_positive n
is_counted r = false

pub record RedisStore (W : Type 0) : Type 0 where
  pub pool : Pool
  pub server : W

-- `redisCommand` on a connection; `none` is a null pointer, as on a broken connection.
module _ {W : Type 0} (redis_command : ℕ → Command → W → Option Reply × W) where
  abbrev answered : {A : Type 0} → (Reply → A) → Pool → Option Reply × W → Run A (RedisStore W)
  answered read p (none, w) = crashes
  answered read p (some r, w) = ran (read r) (record { pool = p; server = w })

  -- Every operation takes a connection, sends its command, gives the connection back, and reads the
  -- reply.
  unfoldable pub perform :
      {A : Type 0} → Command → (Reply → A) → RedisStore W → Run A (RedisStore W)
  perform command read st = elim (get_context st.pool) [
    | blocked ↦ waits
    | undefined ↦ crashes
    | got ctx p ↦ answered read (release_context ctx p) (redis_command ctx command st.server)
  ]

  -- `get_int32_impl` … `del_impl`; keys and texts go over as `char*`.
  unfoldable pub get_int32 : Text → RedisStore W → Run (Expected (Option ℤ)) (RedisStore W)
  get_int32 key = perform (get_key (c_string key)) int32_of

  unfoldable pub get_int64 : Text → RedisStore W → Run (Expected (Option ℤ)) (RedisStore W)
  get_int64 key = perform (get_key (c_string key)) int64_of

  -- A floating-point number is of a type `F`, with what `std::stof` and `std::stod` read, and what
  -- the formats "%.7f" and "%.15f" of hiredis write.
  unfoldable pub get_float :
      {F : Type 0}
      → (Text → Throws F)
      → Text
      → RedisStore W
      → Run (Expected (Option F)) (RedisStore W)
  get_float stof key = perform (get_key (c_string key)) (float_of stof)

  unfoldable pub get_double :
      {F : Type 0}
      → (Text → Throws F)
      → Text
      → RedisStore W
      → Run (Expected (Option F)) (RedisStore W)
  get_double stod key = perform (get_key (c_string key)) (double_of stod)

  unfoldable pub set_float :
      {F : Type 0} → (F → Text) → Text → F → RedisStore W → Run Bool (RedisStore W)
  set_float format key val = perform (set_key (c_string key) (format val)) is_set

  unfoldable pub set_double :
      {F : Type 0} → (F → Text) → Text → F → RedisStore W → Run Bool (RedisStore W)
  set_double format key val = perform (set_key (c_string key) (format val)) is_set

  unfoldable pub get_bool : Text → RedisStore W → Run (Expected (Option Bool)) (RedisStore W)
  get_bool key = perform (get_key (c_string key)) bool_of

  unfoldable pub get_string : Text → RedisStore W → Run (Expected (Option Text)) (RedisStore W)
  get_string key = perform (get_key (c_string key)) string_of

  unfoldable pub get_byte_array : Text → RedisStore W → Run (Expected (Option Text)) (RedisStore W)
  get_byte_array key = perform (get_key (c_string key)) byte_array_of

  unfoldable pub set_int : Text → ℤ → RedisStore W → Run Bool (RedisStore W)
  set_int key val = perform (set_key (c_string key) (print val)) is_set

  unfoldable pub set_int64 : Text → ℤ → RedisStore W → Run Bool (RedisStore W)
  set_int64 key val = perform (set_key (c_string key) (print val)) is_set

  -- `static_cast<int>(val)`
  unfoldable pub set_bool : Text → Bool → RedisStore W → Run Bool (RedisStore W)
  set_bool key val = perform (set_key (c_string key) (print (pos (if val then 1 else 0)))) is_set

  unfoldable pub set_string : Text → Text → RedisStore W → Run Bool (RedisStore W)
  set_string key val = perform (set_key (c_string key) (c_string val)) is_set

  unfoldable pub set_byte_array : Text → Text → RedisStore W → Run Bool (RedisStore W)
  set_byte_array key val = perform (set_key (c_string key) val) is_set

  unfoldable pub exists : Text → RedisStore W → Run Bool (RedisStore W)
  exists key = perform (exists_key (c_string key)) is_counted

  unfoldable pub del : Text → RedisStore W → Run Bool (RedisStore W)
  del key = perform (del_key (c_string key)) is_counted

-- The operations that the sessions use, as the interface that they take.
abbrev pub redis_store : {W : Type 0} → (ℕ → Command → W → Option Reply × W) → IStore (RedisStore W)
redis_store command = record {
  exists = exists command;
  set_byte_array = set_byte_array command;
  get_byte_array = get_byte_array command;
  del = del command;
}
