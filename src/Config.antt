-- ===== src/Config.antt =====
-- internal/config/config.go: the configuration of a run and its validation.
pub mod Readings
pub mod Tests
pub mod Validity
pub mod Overlay
pub mod Files
use perf_loadgen.Base.{
  ℕ, Bool, true, false, not, ◌&&◌, ◌||◌, List, [], ◌∷◌, ◌++◌, Option, none, some, leb, ltb, nat_beq,
  ◌==◌, text_eq, if◌then◌else◌, length, Text, codes, is_empty, trim_space, to_upper, Int64, le64,
  lt64, is_pos64, Floats, Float64, Duration,
}

pub record Config : Type 0 where
  pub url : Text
  pub method : Text
  pub headers : List (Text × Text)
  pub body : Text
  pub body_text : Text
  pub body_file : Text
  pub payload_dir : Text
  pub payload_count : Int64
  pub payload_files : List Text
  pub protocol : Text
  pub grpc_service : Text
  pub grpc_method : Text
  pub grpc_tls : Bool
  pub grpc_token_field : Text
  pub ws_subprotocol : Text
  pub model_price_per_1k : Float64
  pub streaming : Bool
  pub stream_format : Text
  pub stream_done_marker : Text
  pub stream_text_keys : List Text
  pub stream_token_keys : List Text
  pub concurrency : Int64
  pub duration : Duration
  pub requests : Int64
  pub timeout : Duration
  pub output : Text
  pub agent_context : Text
  pub qps : Float64
  pub ramp_up : Duration
  pub metrics_port : Int64
  pub payloads : List Text

-- `Config{}`.
abbrev pub empty_config : Config
empty_config = record {
  url = [];
  method = [];
  headers = [];
  body = [];
  body_text = [];
  body_file = [];
  payload_dir = [];
  payload_count = 0;
  payload_files = [];
  protocol = [];
  grpc_service = [];
  grpc_method = [];
  grpc_tls = false;
  grpc_token_field = [];
  ws_subprotocol = [];
  model_price_per_1k = 0;
  streaming = false;
  stream_format = [];
  stream_done_marker = [];
  stream_text_keys = [];
  stream_token_keys = [];
  concurrency = 0;
  duration = 0;
  requests = 0;
  timeout = 0;
  output = [];
  agent_context = [];
  qps = 0;
  ramp_up = 0;
  metrics_port = 0;
  payloads = [];
}

-- The errors of `Validate`, in the order of its tests.
pub data ConfigError : Type 0 where
  url_required invalid_grpc_target invalid_url method_required invalid_method : ConfigError
  concurrency_not_positive duration_negative requests_negative no_limit : ConfigError
  timeout_not_positive bad_stream_format bad_protocol grpc_names_required : ConfigError
  qps_negative ramp_up_negative ramp_up_too_long bad_metrics_port no_payload_files : ConfigError

-- The part of net/url that the program reads: scheme and host of a target, if it parses.
pub record Urls : Type 0 where
  pub parse : Text → Option (Text × Text)
  pub parse_request_uri : Text → Option (Text × Text)

abbrev pub one_of : Text → List Text → Bool
one_of t [] = false
one_of t (x ∷ xs) = t == x || one_of t xs

unfoldable pub valid_http_method : Text → Bool
valid_http_method method = one_of (to_upper method) (
    codes "GET"
    ∷ codes "HEAD"
    ∷ codes "POST"
    ∷ codes "PUT"
    ∷ codes "PATCH"
    ∷ codes "DELETE"
    ∷ codes "CONNECT"
    ∷ codes "OPTIONS"
    ∷ codes "TRACE"
    ∷ [])

abbrev pub is_grpc : Config → Bool
is_grpc c = c.protocol == codes "grpc" || c.protocol == codes "grpc-stream"

abbrev pub is_http : Config → Bool
is_http c = is_empty c.protocol || c.protocol == codes "http"

-- An early return: the error where the test fails, and the rest of the function otherwise.
abbrev pub check : Bool → ConfigError → Option ConfigError → Option ConfigError
check true e rest = rest
check false e rest = some e

abbrev pub has_host : Option (Text × Text) → Bool
has_host none = false
has_host (some (scheme, host)) = not (is_empty host)

abbrev pub has_scheme_host : Option (Text × Text) → Bool
has_scheme_host none = false
has_scheme_host (some (scheme, host)) = not (is_empty scheme) && not (is_empty host)

abbrev pub stream_format_or_auto : Config → Text
stream_format_or_auto c = if is_empty c.stream_format then codes "auto" else c.stream_format

-- `Validate` has a value receiver: the defaults that it fills in on the way are lost when it
-- returns, but for the stream format, which it tests afterwards.
module _ (f : Floats) (u : Urls) where
  unfoldable pub check_target : Config → Option ConfigError → Option ConfigError
  check_target c rest =
      if is_grpc c
      then check (has_host (u.parse (codes "grpc://" ++ c.url))) invalid_grpc_target rest
      else check (has_scheme_host (u.parse_request_uri c.url)) invalid_url rest

  unfoldable pub check_method : Config → Option ConfigError → Option ConfigError
  check_method c rest =
      if is_http c
      then check (not (is_empty (trim_space c.method))) method_required
          (check (valid_http_method c.method) invalid_method rest)
      else rest

  unfoldable pub check_numbers : Config → Option ConfigError → Option ConfigError
  check_numbers c rest = check (is_pos64 c.concurrency) concurrency_not_positive (
      check (le64 0 c.duration) duration_negative (
        check (le64 0 c.requests) requests_negative (
          check (not (nat_beq c.duration 0 && nat_beq c.requests 0)) no_limit
            (check (is_pos64 c.timeout) timeout_not_positive rest))))

  unfoldable pub check_formats : Config → Option ConfigError → Option ConfigError
  check_formats c rest =
      check
        (one_of (stream_format_or_auto c)
          (codes "auto" ∷ codes "sse" ∷ codes "jsonl" ∷ codes "raw" ∷ []))
        bad_stream_format
        (check
          (one_of c.protocol
            (codes "" ∷ codes "http" ∷ codes "grpc" ∷ codes "grpc-stream" ∷ codes "websocket" ∷ []))
          bad_protocol
          (check (not (is_grpc c && (is_empty c.grpc_service || is_empty c.grpc_method)))
            grpc_names_required rest))

  unfoldable pub check_rates : Config → Option ConfigError → Option ConfigError
  check_rates c rest = check (not (f.flt c.qps (f.lit 0 1))) qps_negative (
      check (le64 0 c.ramp_up) ramp_up_negative (
        check (not (is_pos64 c.ramp_up && is_pos64 c.duration && lt64 c.duration c.ramp_up))
          ramp_up_too_long
          (check (le64 0 c.metrics_port && le64 c.metrics_port 65535) bad_metrics_port rest)))

  -- `none` is Go's nil error.
  unfoldable pub validate : Config → Option ConfigError
  unfolding check_target check_method check_numbers check_formats check_rates
  validate c = check (not (is_empty (trim_space c.url))) url_required (
      check_target c (
        check_method c (
          check_numbers c (
            check_formats c (
              check_rates c (
                check (is_empty c.payload_dir || not (nat_beq (length c.payload_files) 0))
                  no_payload_files none))))))

-- `IsSet`.
unfoldable pub is_set : Config → Bool
is_set c = not (is_empty (trim_space c.url)) && not (is_empty (trim_space c.method))
