-- ===== src/Protocol/Httputil/Reported.antt =====
-- internal/protocol/httputil/errors.go: an outcome whose result and error agree.
use perf_loadgen.Base.{
  ◌≡◌, ◌≢◌, refl, Bool, true, false, Option, none, some, Duration, if◌then◌else◌,
}
use perf_loadgen.Types.{
  category_none, category_unknown, category_network, category_timeout, ErrorCategory,
}
use perf_loadgen.Protocol.Httputil.{
  GoError, Outcome, classify_request_error, net_category, failed_result,
}

-- Either no error, success and the category none, or an error, no success, another category and the
-- message of the error.
abbrev pub IsReported : Outcome → Type 0
IsReported (r, none) = (r.success ≡ true) × (r.error_category ≡ category_none)
IsReported (r, some e) =
    (r.success ≡ false) × (r.error_category ≢ category_none) × (r.error_message ≡ e.message)

abbrev category_of : Bool → Option Bool → Bool → ErrorCategory
category_of deadline net refused =
    if deadline
    then category_timeout
    else net_category net (if refused then category_network else category_unknown)

category_of-none : (d : Bool) (n : Option Bool) (r : Bool) → category_of d n r ≢ category_none
category_of-none true n r h = cc
category_of-none false (some true) r h = cc
category_of-none false (some false) r h = cc
category_of-none false none true h = cc
category_of-none false none false h = cc

pub classify_request_error-none : (e : GoError) → classify_request_error (some e) ≢ category_none
unfolding classify_request_error
classify_request_error-none e = category_of-none e.deadline_exceeded e.net_timeout e.refused

pub failed_result-IsReported :
    (c : ErrorCategory) (e : GoError) (elapsed : Duration)
    → c ≢ category_none
    → IsReported (failed_result c e elapsed, some e)
unfolding failed_result
failed_result-IsReported c e elapsed h = (refl, h, refl)
