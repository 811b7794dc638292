-- ===== src/Store/Redis/Typed.antt =====
-- redis.cpp: a number that is set is got back.
use clean_architecture_cpp.Base.{
  suc, ℕ, ◌^◌, ◌≡◌, refl, ◌∙◌, ap, Throws, ret, Bool, true, false, if◌then◌else◌, Option, some, [],
  ◌∷◌, Text, text_eq_refl, Lacks, All, arith,
}
use clean_architecture_cpp.Base.Decimal.{IsDecimal, to_string, to_string-IsDecimal}
use clean_architecture_cpp.Base.Integer.{
  ℤ, pos, negsuc, print, InRange, read_signed-print, stoi, stoll,
}
use clean_architecture_cpp.Entities.Log.{Expected, value}
use clean_architecture_cpp.Utils.Strings.{to_int32, to_int64, to_float, to_double}
use clean_architecture_cpp.Store.{Run, ran, Command, get_key, set_key}
use clean_architecture_cpp.Store.Redis.{
  Reply, string, other, RedisStore, c_string, int32_of, int64_of, float_of, double_of, get_float,
  get_double, set_float, set_double, bool_of, string_of, is_set, perform, set_int64, get_int64,
  set_bool, get_bool, set_string, get_string, get_int32, set_int,
}
use clean_architecture_cpp.Store.Redis.Laws.{IsServer, IsReady, c_string_of_Lacks, perform_ready}

pub decimal-Lacks : (s : Text) → All IsDecimal s → Lacks 0 s
decimal-Lacks [] h = tt
decimal-Lacks (c ∷ s) (p, h) = (ground arith, decimal-Lacks s h)

pub print-Lacks : (z : ℤ) → Lacks 0 (print z)
unfolding print
print-Lacks (pos n) = decimal-Lacks (to_string n) (to_string-IsDecimal n)
print-Lacks (negsuc n) =
    (ground arith, decimal-Lacks (to_string (suc n)) (to_string-IsDecimal (suc n)))

int32_of-print : (z : ℤ) → InRange (2 ^ 31) z → int32_of (string (print z)) ≡ value (some z)
unfolding int32_of to_int32 stoi
int32_of-print z h =
    rw (c_string_of_Lacks (print z) (print-Lacks z), read_signed-print (2 ^ 31) z h)

int64_of-print : (z : ℤ) → InRange (2 ^ 63) z → int64_of (string (print z)) ≡ value (some z)
unfolding int64_of to_int64 stoll
int64_of-print z h =
    rw (c_string_of_Lacks (print z) (print-Lacks z), read_signed-print (2 ^ 63) z h)

float_of-read :
    {F : Type 0} (stof : Text → Throws F) (t : Text) (x : F)
    → Lacks 0 t
    → stof t ≡ ret x
    → float_of stof (string t) ≡ value (some x)
unfolding float_of to_float
float_of-read stof t x l e = rw (c_string_of_Lacks t l, e) refl

double_of-read :
    {F : Type 0} (stod : Text → Throws F) (t : Text) (x : F)
    → Lacks 0 t
    → stod t ≡ ret x
    → double_of stod (string t) ≡ value (some x)
unfolding double_of to_double
double_of-read stod t x l e = rw (c_string_of_Lacks t l, e) refl

bool_of-print : (b : Bool) → bool_of (string (print (pos (if b then 1 else 0)))) ≡ value (some b)
unfolding bool_of print to_string
bool_of-print true = refl
bool_of-print false = refl

string_of-c_string : (s : Text) → Lacks 0 s → string_of (string (c_string s)) ≡ value (some s)
unfolding string_of
string_of-c_string s l = rw (c_string_of_Lacks s l) (rw (c_string_of_Lacks s l) refl)

module _ {W : Type 0} (command : ℕ → Command → W → Option Reply × W) (view : W → Text → Option Text)
    (put : Text → Text → W → W) (erase : Text → W → W)
    (server : IsServer command view put erase) where
  -- A value that is set under a key as the text `t` is read, next, from that text.
  get-set :
      {A : Type 0} (read : Reply → A) (t k : Text) (st : RedisStore W)
      → IsReady st.pool
      → Lacks 0 k
      → (st' st'' : RedisStore W) × (perform command (set_key (c_string k) t) is_set st
          ≡ ran true st')
        × (perform command (get_key (c_string k)) read st' ≡ ran (read (string t)) st'')
  unfolding is_set
  get-set read t k st r h =
      let w = put k t st.server in
      let first =
        perform_ready command (set_key (c_string k) t) is_set st other w r
          (λ ctx. rw (c_string_of_Lacks k h) (server.sets ctx k t st.server)) in
      let st' : RedisStore W = record { pool = first.pool; server = w } in
      let here : view w k ≡ some t = server.view_put k t k st.server ∙ (rw (text_eq_refl k)) in
      let second =
        perform_ready command (get_key (c_string k)) read st' (string t) w first.ready
          (λ ctx. rw (c_string_of_Lacks k h) (server.gets ctx k w ∙ (rw here))) in
      (st', record { pool = second.pool; server = w }, first.same, second.same)

  -- `get`, called after `set` has set a value, gives that value.
  abbrev pub ReadsBack :
      {A : Type 0}
      → (RedisStore W → Run Bool (RedisStore W))
      → (RedisStore W → Run (Expected (Option A)) (RedisStore W))
      → A
      → RedisStore W
      → Type 0
  ReadsBack set get a st =
      (st' st'' : RedisStore W) × (set st ≡ ran true st') × (get st' ≡ ran (value (some a)) st'')

  perform-ReadsBack :
      {A : Type 0} (read : Reply → Expected (Option A)) (t k : Text) (a : A) (st : RedisStore W)
      → IsReady st.pool
      → Lacks 0 k
      → read (string t) ≡ value (some a)
      → ReadsBack
          (perform command (set_key (c_string k) t) is_set)
          (perform command (get_key (c_string k)) read)
          a
          st
  perform-ReadsBack read t k a st r h e =
      let (st', st'', first, second) = get-set read t k st r h in
      (st', st'', first, second ∙ ap (λ x. ran x st'') e)

  -- A 32-bit number that `set_int` puts under a key without a zero byte is what `get_int32`, called
  -- next, gives of that key, if the semaphore counts the idle connections, of which there is one at
  -- least, and the server does what its documentation says.
  pub get_int32-set_int :
      (k : Text) (z : ℤ) (st : RedisStore W)
      → IsReady st.pool
      → Lacks 0 k
      → InRange (2 ^ 31) z
      → (st' st'' : RedisStore W) × (set_int command k z st ≡ ran true st')
        × (get_int32 command k st' ≡ ran (value (some z)) st'')
  unfolding set_int get_int32
  get_int32-set_int k z st r h i =
      perform-ReadsBack int32_of (print z) k z st r h (int32_of-print z i)

  -- What `set_int`, `set_int64`, `set_float`, `set_double`, `set_bool` and `set_string` put under a
  -- key without a zero byte is what `get_int32`, `get_int64`, `get_float`, `get_double`, `get_bool`
  -- and `get_string`, called next, give of that key: a number of 32 or of 64 bits, a floating-point
  -- number that is written without a zero byte and so that `std::stof` or `std::stod` reads it back,
  -- a truth value, or a text without a zero byte; if the semaphore counts the idle connections, of
  -- which there is one at least, and the server does what its documentation says.
  pub get-set_typed :
      {F : Type 0} (stof stod : Text → Throws F) (format7 format15 : F → Text) (k : Text)
      (st : RedisStore W) (z32 z64 : ℤ) (x y : F) (b : Bool) (s : Text)
      → IsReady st.pool
      → Lacks 0 k
      → InRange (2 ^ 31) z32
      → InRange (2 ^ 63) z64
      → Lacks 0 (format7 x)
      → stof (format7 x) ≡ ret x
      → Lacks 0 (format15 y)
      → stod (format15 y) ≡ ret y
      → Lacks 0 s
      → ReadsBack (set_int command k z32) (get_int32 command k) z32 st
        × ReadsBack (set_int64 command k z64) (get_int64 command k) z64 st
        × ReadsBack (set_float command format7 k x) (get_float command stof k) x st
        × ReadsBack (set_double command format15 k y) (get_double command stod k) y st
        × ReadsBack (set_bool command k b) (get_bool command k) b st
        × ReadsBack (set_string command k s) (get_string command k) s st
  unfolding set_int get_int32 set_int64 get_int64 set_float get_float set_double get_double set_bool
      get_bool set_string get_string
  get-set_typed stof stod format7 format15 k st z32 z64 x y b s r h i32 i64 lx ex ly ey ls = (
    perform-ReadsBack int32_of (print z32) k z32 st r h (int32_of-print z32 i32),
    perform-ReadsBack int64_of (print z64) k z64 st r h (int64_of-print z64 i64),
    perform-ReadsBack (float_of stof) (format7 x) k x st r h
        (float_of-read stof (format7 x) x lx ex),
    perform-ReadsBack (double_of stod) (format15 y) k y st r h
        (double_of-read stod (format15 y) y ly ey),
    perform-ReadsBack bool_of (print (pos (if b then 1 else 0))) k b st r h (bool_of-print b),
    perform-ReadsBack string_of (c_string s) k s st r h (string_of-c_string s ls),
  )
