-- ===== src/Adapters/Wrapper/Logging.antt =====
-- src/adapters/http/wrapper.hpp: the constructor and the destructor of a WrapperRequest, which logs the
-- request. The times are milliseconds of one clock.
use clean_architecture_cpp.Base.{◌<◌, ◌≤◌, ◌≡◌, [], ◌∷◌, Text, codes, concat, arith}
use clean_architecture_cpp.Base.Integer.{ℤ, print}
use clean_architecture_cpp.Base.Decimal.{to_string}
use clean_architecture_cpp.Store.Redis.{c_string}
use clean_architecture_cpp.Loggers.{DevLogger, info, rank, info_impl}
use clean_architecture_cpp.Loggers.Levels.{Prints, log_at-rank}
use clean_architecture_cpp.Adapters.Wrapper.{WrapperRequest}

-- `get_content_type_impl` and `get_body_impl`
abbrev pub get_content_type : {S : Type 0} → WrapperRequest S → Text
get_content_type x = x.req.content_type

abbrev pub get_body : {S : Type 0} → WrapperRequest S → Text
get_body x = x.req.body

-- The text that the destructor logs.
unfoldable pub request_text : {S : Type 0} → ℤ → WrapperRequest S → Text
request_text ms x = concat (
    x.req.method
    ∷ codes " "
    ∷ x.req.uri
    ∷ codes " "
    ∷ to_string x.res.status
    ∷ codes " "
    ∷ print ms
    ∷ codes "ms"
    ∷ [])

-- `~WrapperRequest`, at the time `now` as the logger prints it; `ms` is the time since the constructor.
unfoldable pub log_request : {S : Type 0} → ℤ → Text → WrapperRequest S → DevLogger → DevLogger
unfolding request_text info_impl
log_request ms now x l = info_impl now (c_string (request_text ms x)) l

-- A request is logged in exactly one line, by a logger whose level is LOGGING_INFO at least; any other
-- is left as it is.
pub log_request-rank :
    {S : Type 0} (ms : ℤ) (now : Text) (x : WrapperRequest S) (l : DevLogger)
    → (rank info ≤ rank l.level → Prints l (log_request ms now x l))
      × (rank l.level < rank info → log_request ms now x l ≡ l)
unfolding log_request
log_request-rank ms now x l = log_at-rank info now (c_string (request_text ms x)) l (omega arith)
