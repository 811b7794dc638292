-- ===== src/Loggers/Silent.antt =====
-- src/interfaces/logger/build.hpp and silent.hpp: the interface of a logger, and the one that logs
-- nothing.
use clean_architecture_cpp.Base.{◌≡◌, refl, Text}
use clean_architecture_cpp.Store.Redis.{c_string}
use clean_architecture_cpp.Loggers.{
  Logging, silent, fatal, error, warn, info, debug, trace, DevLogger, fatal_impl, error_impl,
  warn_impl, info_impl, debug_impl, trace_impl,
}

-- The functions of an implementation, by their level; there is none for the level LOGGING_SILENT.
pub record ILogger (L : Type 0) : Type 0 where
  pub on_fatal : Text → L → L
  pub on_error : Text → L → L
  pub on_warn : Text → L → L
  pub on_info : Text → L → L
  pub on_debug : Text → L → L
  pub on_trace : Text → L → L

-- `fatal` to `trace` of the interface, on a `std::string`: they pass it on as a text of C.
unfoldable pub logs : {L : Type 0} → ILogger L → Logging → Text → L → L
logs i silent text l = l
logs i fatal text l = i.on_fatal (c_string text) l
logs i error text l = i.on_error (c_string text) l
logs i warn text l = i.on_warn (c_string text) l
logs i info text l = i.on_info (c_string text) l
logs i debug text l = i.on_debug (c_string text) l
logs i trace text l = i.on_trace (c_string text) l

-- `SilentLogger`
abbrev pub silent_logger : {L : Type 0} → ILogger L
silent_logger = record {
  on_fatal = λ text l. l;
  on_error = λ text l. l;
  on_warn = λ text l. l;
  on_info = λ text l. l;
  on_debug = λ text l. l;
  on_trace = λ text l. l;
}

-- `DevLogger`, at the time `now`.
abbrev pub dev_logger : Text → ILogger DevLogger
dev_logger now = record {
  on_fatal = fatal_impl now;
  on_error = error_impl now;
  on_warn = warn_impl now;
  on_info = info_impl now;
  on_debug = debug_impl now;
  on_trace = trace_impl now;
}

-- The development logger of the level LOGGING_SILENT does what the silent logger does.
pub logs-silent :
    (m : Logging) (now text : Text) (l : DevLogger)
    → l.level ≡ silent
    → logs (dev_logger now) m text l ≡ logs silent_logger m text l
unfolding logs fatal_impl error_impl warn_impl info_impl debug_impl trace_impl
logs-silent silent now text l e = refl
logs-silent fatal now text l e = rw (fatal_impl, e) refl
logs-silent error now text l e = rw (error_impl, e) refl
logs-silent warn now text l e = rw (warn_impl, e) refl
logs-silent info now text l e = rw (info_impl, e) refl
logs-silent debug now text l e = rw (debug_impl, e) refl
logs-silent trace now text l e = rw (trace_impl, e) refl
