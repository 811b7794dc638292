-- ===== src/Utils/Env/Files.antt =====
-- env.cpp: what a .env file sets.
use mathlib.Core.Path.{ap₂}
use clean_architecture_cpp.Base.{
  find_cases, substr_from_at, ℕ, ◌+◌, ◌≡◌, refl, sym, ◌∙◌, ap, suc, false, ◌==◌, if◌then◌else◌,
  Bool-cases, inl, inr, Option, none, some, List, [], ◌∷◌, ◌++◌, Text, is_empty, length, drop, All,
  Lacks, text_eq, split, split_of_some, index_of-append, find, find_first, substr, substr_first,
  substr_from, substr_from_first, substr_whole, ret, drop-drop, take-append, drop-append, arith,
  All-append, index_of_of_Lacks, text_eq_refl, le→ltb_false,
}
use clean_architecture_cpp.Store.Redis.{c_string}
use clean_architecture_cpp.Store.Redis.Laws.{c_string_of_Lacks}
use clean_architecture_cpp.Utils.Env.{
  Environ, getenv, setenv, drop_last_empty, getlines, is_skipped, set_line, set_lines, init_env,
  get_env, or_default,
}

-- A setting that a line can hold: a name and a value.
pub record IsSetting (s : Text × Text) : Type 0 where
  pub named : is_skipped s.0 ≡ false
  pub name_line : Lacks b'\n' s.0
  pub name_equals : Lacks b'=' s.0
  pub name_zero : Lacks 0 s.0
  pub val_line : Lacks b'\n' s.1
  pub val_zero : Lacks 0 s.1

-- The file of some settings.
abbrev pub file_of : List (Text × Text) → Text
file_of [] = []
file_of ((name, val) ∷ settings) = (name ++ b'=' ∷ val) ++ b'\n' ∷ file_of settings

-- The value that the settings leave a name: the last one of it, or the one it had.
abbrev pub last_setting : Text → List (Text × Text) → Option Text → Option Text
last_setting key [] old = old
last_setting key ((name, val) ∷ settings) old =
    last_setting key settings (if text_eq name key then some val else old)

-- What a setting amounts to: its value, or the default if it has none or an empty one.
abbrev pub setting_or : Text → Option Text → Text
setting_or def none = def
setting_or def (some []) = def
setting_or def (some (c ∷ s)) = c ∷ s

split-append : (c : ℕ) (p rest : Text) → Lacks c p → split c (p ++ c ∷ rest) ≡ p ∷ split c rest
split-append c p rest h =
    let (e, lt) = split_of_some c (p ++ c ∷ rest) (length p) (index_of-append c p rest h) in
    let same : suc (length p) ≡ length p + 1 = omega arith in
    let cut : drop (suc (length p)) (p ++ c ∷ rest) ≡ rest =
      ap (λ k. drop k (p ++ c ∷ rest)) same
      ∙ sym (drop-drop (length p) 1 (p ++ c ∷ rest))
      ∙ ap (drop 1) (drop-append p (c ∷ rest)) in
    e ∙ ap₂ {C = List Text} (λ a b. a ∷ split c b) (take-append p (c ∷ rest)) cut

is_skipped-append : (name rest : Text) → is_skipped name ≡ false → is_skipped (name ++ rest) ≡ false
is_skipped-append [] rest h = absurd (cc)
is_skipped-append (c ∷ name) rest h = h

is_empty_of_named : (name : Text) → is_skipped name ≡ false → is_empty name ≡ false
is_empty_of_named [] h = absurd (cc)
is_empty_of_named (c ∷ name) h = refl

substr_from_zero : (s : Text) → substr_from s 0 ≡ ret s
unfolding substr_from
substr_from_zero s = rw (le→ltb_false (length s) 0 (omega arith))

set_line-setting :
    (name val : Text) (env : Environ)
    → IsSetting (name, val)
    → set_line (name ++ b'=' ∷ val) env ≡ ret ((name, val) ∷ env)
unfolding set_line setenv
set_line-setting name val env v = rw (
  is_skipped-append name (b'=' ∷ val) v.named,
  find_first b'=' name val v.name_equals,
  substr_first b'=' name val v.name_equals,
  substr_from_first b'=' name val v.name_equals,
  c_string_of_Lacks name v.name_zero,
  c_string_of_Lacks val v.val_zero,
  is_empty_of_named name v.named,
)

unfoldable lines_of : List (Text × Text) → List Text
lines_of [] = []
lines_of ((name, val) ∷ settings) = (name ++ b'=' ∷ val) ∷ lines_of settings

Lacks-append : (c : ℕ) (s t : Text) → Lacks c s → Lacks c t → Lacks c (s ++ t)
Lacks-append c s t h k = All-append (λ x. (x == c) ≡ false) s t h k

drop_last_empty-setting :
    (name val : Text) (lines : List Text)
    → is_skipped name ≡ false
    → drop_last_empty ((name ++ b'=' ∷ val) ∷ lines) ≡ (name ++ b'=' ∷ val) ∷ drop_last_empty lines
drop_last_empty-setting [] val lines h = absurd (cc)
drop_last_empty-setting (c ∷ name) val lines h = refl

-- The lines of the file of some settings.
getlines-file_of :
    (settings : List (Text × Text))
    → All IsSetting settings
    → getlines (file_of settings) ≡ lines_of settings
unfolding getlines split lines_of
getlines-file_of [] h = refl
getlines-file_of ((name, val) ∷ settings) (v, h) =
    ap drop_last_empty (
      split-append b'\n' (name ++ b'=' ∷ val) (file_of settings)
        (Lacks-append b'\n' name (b'=' ∷ val) v.name_line (refl, v.val_line)))
    ∙ drop_last_empty-setting name val (split b'\n' (file_of settings)) v.named
    ∙ ap (◌∷◌ (name ++ b'=' ∷ val)) (getlines-file_of settings h)

-- The environment after some settings.
abbrev pub after : List (Text × Text) → Environ → Environ
after [] env = env
after (setting ∷ settings) env = after settings (setting ∷ env)

set_lines-lines_of :
    (settings : List (Text × Text)) (env : Environ)
    → All IsSetting settings
    → set_lines (lines_of settings) env ≡ ret (after settings env)
unfolding set_lines lines_of
set_lines-lines_of [] env h = refl
set_lines-lines_of ((name, val) ∷ settings) env (v, h) =
    rw (set_line-setting name val env v) (set_lines-lines_of settings ((name, val) ∷ env) h)

getenv-after :
    (key : Text) (settings : List (Text × Text)) (env : Environ)
    → getenv key (after settings env) ≡ last_setting key settings (getenv key env)
unfolding getenv
getenv-after key [] env = refl
getenv-after key ((name, val) ∷ settings) env = getenv-after key settings ((name, val) ∷ env)

or_default-setting_or : (def : Text) (val : Option Text) → or_default def val ≡ setting_or def val
or_default-setting_or def none = refl
or_default-setting_or def (some []) = refl
or_default-setting_or def (some (c ∷ s)) = refl

-- A file of settings, each of a name that is not empty, does not begin with # and holds no equals
-- sign, and neither in its name nor in its value a line feed or a zero byte, is read without an
-- exception. After it `get_env` gives of a name, which counts up to its first zero byte, the value
-- that the last setting of it in the file has, or what the environment had if there is none, and the
-- default if that value is empty or missing.
pub get_env-init_env :
    (settings : List (Text × Text)) (env : Environ)
    → All IsSetting settings
    → (env' : Environ) × (init_env (some (file_of settings)) env ≡ ret env')
      × ((key def : Text)
          → get_env key def env'
            ≡ setting_or def (last_setting (c_string key) settings (getenv (c_string key) env)))
unfolding init_env get_env
get_env-init_env settings env h = (
  after settings env,
  ap (λ lines. set_lines lines env) (getlines-file_of settings h)
      ∙ set_lines-lines_of settings env h,
  λ key def.
      ap (or_default def) (getenv-after (c_string key) settings env)
      ∙ or_default-setting_or def
          (last_setting (c_string key) settings (getenv (c_string key) env)),
)

-- A line that is not empty, does not begin with # and holds neither an equals sign nor a zero byte
-- sets the name that the whole line is to that same line.
pub set_line_repeats :
    (line : Text) (env : Environ)
    → is_skipped line ≡ false
    → Lacks b'=' line
    → Lacks 0 line
    → (set_line line env ≡ ret (setenv line line env))
      × (getenv line (setenv line line env) ≡ some line)
unfolding set_line setenv getenv find
set_line_repeats line env h k z = (
  rw (
    h,
    index_of_of_Lacks b'=' line k,
    substr_whole line,
    substr_from_zero line,
    c_string_of_Lacks line z,
  ),
  rw (is_empty_of_named line h, text_eq_refl line),
)

set_line_total : (line : Text) (env : Environ) → (env' : Environ) × (set_line line env ≡ ret env')
unfolding set_line
set_line_total line env = elim (Bool-cases (is_skipped line)) [
  | inl e ↦ (env, rw e)
  | inr e ↦ elim (find_cases b'=' line 0 (omega arith)) [
    | inl (f, p, r) ↦ (
      setenv (c_string line) (c_string line) env,
      rw (e, f, substr_whole line, substr_from_zero line),
    )
    | inr (end, q, (f, p, r, le, lt)) ↦
        let p0 : substr line 0 end ≡ ret q = ap (λ k. substr line 0 k) (omega arith) ∙ p in
        let t : substr_from line (end + 1) ≡ ret (drop (end + 1) line) =
          substr_from_at line (drop (end + 1) line) (end + 1) (omega arith) refl in
        (setenv (c_string q) (c_string (drop (end + 1) line)) env, rw (e, f, p0, t))
  ]
]

set_lines_total :
    (lines : List Text) (env : Environ) → (env' : Environ) × (set_lines lines env ≡ ret env')
unfolding set_lines
set_lines_total [] env = (env, refl)
set_lines_total (line ∷ lines) env =
    let (env1, e) = set_line_total line env in
    let (env2, f) = set_lines_total lines env1 in (env2, rw e f)

-- No file makes `init_env` throw.
pub init_env_total :
    (file : Option Text) (env : Environ) → (env' : Environ) × (init_env file env ≡ ret env')
unfolding init_env
init_env_total none env = (env, refl)
init_env_total (some content) env = set_lines_total (getlines content) env
