-- ===== src/Utils/Env.antt =====
-- src/utils/env.cpp: the .env file and the environment of the process.
pub mod Files
use clean_architecture_cpp.Base.{
  ℕ, ◌+◌, Bool, true, false, ◌||◌, ◌==◌, if◌then◌else◌, Option, none, some, List, [], ◌∷◌, Text,
  is_empty, length, text_eq, split, find, substr, substr_from, Throws, ret, ◌>>=◌,
}
use clean_architecture_cpp.Store.Redis.{c_string}

-- The environment: a value for each name.
abbrev pub Environ : Type 0
Environ = List (Text × Text)

unfoldable pub getenv : Text → Environ → Option Text
getenv key [] = none
getenv key ((name, val) ∷ env) = if text_eq name key then some val else getenv key env

-- `setenv(name, value, 1)`, which fails on an empty name.
unfoldable pub setenv : Text → Text → Environ → Environ
setenv name val env = if is_empty name then env else (name, val) ∷ env

-- The lines that `std::getline` gives: what follows the last line feed is a line if it is not empty.
abbrev pub drop_last_empty : List Text → List Text
drop_last_empty [] = []
drop_last_empty ([] ∷ []) = []
drop_last_empty (line ∷ lines) = line ∷ drop_last_empty lines

unfoldable pub getlines : Text → List Text
getlines content = drop_last_empty (split b'\n' content)

abbrev pub is_skipped : Text → Bool
is_skipped [] = true
is_skipped (c ∷ line) = c == b'#'

-- `line.substr(0, pos)` and `line.substr(pos + 1)`, where `npos + 1` is 0.
abbrev pub cut_at : Text → Option ℕ → Throws (Text × Text)
cut_at line (some pos) = do
  name ← substr line 0 pos
  val ← substr_from line (pos + 1)
  ret (name, val)
cut_at line none = do name ← substr line 0 (length line); val ← substr_from line 0; ret (name, val)

-- One round of the loop of `init_env`.
unfoldable pub set_line : Text → Environ → Throws Environ
set_line line env = if is_skipped line then ret env else (do
  cut ← cut_at line (find line b'=' 0)
  ret (setenv (c_string cut.0) (c_string cut.1) env))

unfoldable pub set_lines : List Text → Environ → Throws Environ
unfolding set_line
set_lines [] env = ret env
set_lines (line ∷ lines) env = set_line line env >>= set_lines lines

-- `init_env` on what the file holds, if it could be opened.
unfoldable pub init_env : Option Text → Environ → Throws Environ
unfolding getlines set_lines
init_env none env = ret env
init_env (some content) env = set_lines (getlines content) env

abbrev pub or_default : Text → Option Text → Text
or_default def none = def
or_default def (some val) = if is_empty val then def else val

unfoldable pub get_env : Text → Text → Environ → Text
get_env key def env = or_default def (getenv (c_string key) env)
