-- ===== src/Loggers.antt =====
-- src/interfaces/logger: dev.cpp, over what `now` gives, and the logger of main.cpp. What is written to
-- the standard output is a list of texts.
pub mod Levels
pub mod Silent
use clean_architecture_cpp.Base.{
  ℕ, ltb, if◌then◌else◌, List, [], ◌∷◌, ◌++◌, Text, codes, concat, push_back,
}
use clean_architecture_cpp.Store.Redis.{c_string}

pub data Logging : Type 0 where
  silent fatal error warn info debug trace : Logging

-- The value of an enumerator.
abbrev pub rank : Logging → ℕ
rank silent = 0
rank fatal = 1
rank error = 2
rank warn = 3
rank info = 4
rank debug = 5
rank trace = 6

abbrev esc : Text → Text
esc s = 27 ∷ s

pub record DevLogger : Type 0 where
  pub level : Logging
  pub output : List Text

-- One `printf` of the time, the marks, the label and the text, each up to its zero byte.
abbrev pub line : Text → Text → Text → Text → Text
line now marks label text = concat (
    c_string now
    ∷ codes " "
    ∷ marks
    ∷ label
    ∷ codes ":"
    ∷ esc (codes "[0m")
    ∷ codes " "
    ∷ c_string text
    ∷ codes "\n"
    ∷ [])

abbrev bold : Text
bold = esc (codes "[1m")

abbrev pub print_line : Text → DevLogger → DevLogger
print_line text l = record l { output = push_back l.output text }

unfoldable pub fatal_impl : Text → Text → DevLogger → DevLogger
fatal_impl now text l =
    if ltb (rank l.level) (rank fatal)
    then l
    else print_line
        (line now (bold ++ (esc (codes "[30m") ++ esc (codes "[41m"))) (codes "fatal") text) l

unfoldable pub error_impl : Text → Text → DevLogger → DevLogger
error_impl now text l =
    if ltb (rank l.level) (rank error)
    then l
    else print_line (line now (bold ++ esc (codes "[31m")) (codes "error") text) l

unfoldable pub warn_impl : Text → Text → DevLogger → DevLogger
warn_impl now text l =
    if ltb (rank l.level) (rank warn)
    then l
    else print_line (line now (bold ++ esc (codes "[33m")) (codes "warn") text) l

unfoldable pub info_impl : Text → Text → DevLogger → DevLogger
info_impl now text l =
    if ltb (rank l.level) (rank info)
    then l
    else print_line (line now (bold ++ esc (codes "[32m")) (codes "info") text) l

unfoldable pub debug_impl : Text → Text → DevLogger → DevLogger
debug_impl now text l =
    if ltb (rank l.level) (rank debug)
    then l
    else print_line (line now (bold ++ esc (codes "[95m")) (codes "debug") text) l

unfoldable pub trace_impl : Text → Text → DevLogger → DevLogger
trace_impl now text l =
    if ltb (rank l.level) (rank trace)
    then l
    else print_line (line now (bold ++ esc (codes "[34m")) (codes "trace") text) l
