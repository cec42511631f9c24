-- ===== src/Protocol/Httputil.antt =====
-- internal/protocol/httputil: the categories of errors, and what a runner reads of the headers of a
-- response. An error carries the answers of errors.Is and errors.As that the code asks for.
mod Fields
pub mod Reported
unfoldable pub use Fields.*
use perf_loadgen.Base.{◌++◌, Bool, true, false, Option, none, some, Text, Duration, if◌then◌else◌}
use perf_loadgen.Types.{
  RunResult, empty_result, ErrorCategory, category_none, category_timeout, category_network,
  category_unknown,
}

pub record GoError : Type 0 where
  pub message : Text
  -- errors.Is with context.DeadlineExceeded and with syscall.ECONNREFUSED.
  pub deadline_exceeded : Bool
  pub refused : Bool
  -- errors.As with a net.Error: its Timeout().
  pub net_timeout : Option Bool

-- errors.New.
abbrev pub new_error : Text → GoError
new_error message = record {
  message = message;
  deadline_exceeded = false;
  refused = false;
  net_timeout = none;
}

-- fmt.Errorf with %w.
abbrev pub wrap_error : Text → GoError → GoError
wrap_error prefix e = record e { message = prefix ++ e.message }

-- What a runner returns: the result and its error, `none` for nil.
abbrev pub Outcome : Type 0
Outcome = RunResult × Option GoError

abbrev pub net_category : Option Bool → ErrorCategory → ErrorCategory
net_category (some true) otherwise = category_timeout
net_category (some false) otherwise = category_network
net_category none otherwise = otherwise

unfoldable pub classify_request_error : Option GoError → ErrorCategory
classify_request_error none = category_none
classify_request_error (some e) =
    if e.deadline_exceeded
    then category_timeout
    else net_category e.net_timeout (if e.refused then category_network else category_unknown)

unfoldable pub failed_result : ErrorCategory → GoError → Duration → RunResult
failed_result category e latency = record empty_result {
  success = false;
  latency = latency;
  error_category = category;
  error_message = e.message;
}
