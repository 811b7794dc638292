-- ===== src/Entities/Log.antt =====
-- src/entities/log/main.hpp: the error values of the program, and `tl::expected` of them.
use clean_architecture_cpp.Base.{if◌then◌else◌, List, [], ◌∷◌, ◌++◌, Text, codes, is_empty}

pub record Log : Type 0 where
  pub msg : Text
  pub file : Text
  pub function : Text
  pub db : Text
  pub db_contraint : Text
  pub errors : List Text

-- A log whose fields are all empty, which the source's designated initialisers start from.
abbrev pub empty_log : Log
empty_log = record { msg = []; file = []; function = []; db = []; db_contraint = []; errors = [] }

-- `tl::expected<A, entity::Log>`
pub data Expected {ℓ} (A : Type ℓ) : Type ℓ where
  value : A → Expected A
  unexpected : Log → Expected A

abbrev error_lines : List Text → Text
error_lines [] = []
error_lines (err ∷ errors) = (codes "\n==> " ++ err) ++ error_lines errors

abbrev append_if : Text → Text → Text → Text
append_if s label text = if is_empty text then s else s ++ (label ++ text)

abbrev with_db : Log → Text → Text
with_db log str =
    if is_empty log.db
    then str
    else append_if (str ++ (codes "\n> Db: " ++ log.db)) (codes " -> Constraint: ") log.db_contraint

abbrev with_errors : Log → Text → Text
with_errors log str =
    if is_empty log.errors then str else (str ++ codes "\n> Errors:") ++ error_lines log.errors

-- `Log::to_string`
unfoldable pub to_string : Log → Text
to_string log =
    let str1 = append_if [] (codes "\n> File: ") log.file in
    let str2 = append_if str1 (codes "\n> Function: ") log.function in
    append_if (with_errors log (with_db log str2)) (codes "\n> Message: ") log.msg
