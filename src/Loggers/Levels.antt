-- ===== src/Loggers/Levels.antt =====
-- dev.cpp: which messages a level lets through.
use clean_architecture_cpp.Base.{
  le→ltb_false, lt→ltb, if◌then◌else◌, ltb, ℕ, ◌≤◌, ◌<◌, ◌≡◌, refl, [], ◌∷◌, ◌++◌, Text, arith,
}
use clean_architecture_cpp.Loggers.{
  Logging, silent, fatal, error, warn, info, debug, trace, rank, print_line, DevLogger, fatal_impl,
  error_impl, warn_impl, info_impl, debug_impl, trace_impl,
}

-- A message is logged at one of the levels that have a function.
abbrev pub log_at : Logging → Text → Text → DevLogger → DevLogger
log_at silent now text l = l
log_at fatal now text l = fatal_impl now text l
log_at error now text l = error_impl now text l
log_at warn now text l = warn_impl now text l
log_at info now text l = info_impl now text l
log_at debug now text l = debug_impl now text l
log_at trace now text l = trace_impl now text l

-- Exactly one line is added.
abbrev pub Prints : DevLogger → DevLogger → Type 0
Prints l l' = (l'.level ≡ l.level) × ((line : Text) × (l'.output ≡ l.output ++ line ∷ []))

print_line-level :
    (n : ℕ) (text : Text) (l : DevLogger)
    → let l' = if ltb (rank l.level) n then l else print_line text l in
      (n ≤ rank l.level → Prints l l') × (rank l.level < n → l' ≡ l)
print_line-level n text l = (
  λ le. rw (le→ltb_false (rank l.level) n le) (refl, (text, refl)),
  λ lt. rw (lt→ltb (rank l.level) n lt) refl,
)

-- A message of a level other than LOGGING_SILENT adds exactly one line to the output of a logger
-- whose level is at least as high, and leaves every other logger as it is.
pub log_at-rank :
    (m : Logging) (now text : Text) (l : DevLogger)
    → 0 < rank m
    → (rank m ≤ rank l.level → Prints l (log_at m now text l))
      × (rank l.level < rank m → log_at m now text l ≡ l)
unfolding fatal_impl error_impl warn_impl info_impl debug_impl trace_impl
log_at-rank silent now text l h = absurd (omega arith)
log_at-rank fatal now text l h = print_line-level (rank fatal) _ l
log_at-rank error now text l h = print_line-level (rank error) _ l
log_at-rank warn now text l h = print_line-level (rank warn) _ l
log_at-rank info now text l h = print_line-level (rank info) _ l
log_at-rank debug now text l h = print_line-level (rank debug) _ l
log_at-rank trace now text l h = print_line-level (rank trace) _ l
