-- ===== src/Types.antt =====
-- pkg/types/types.go: the records that runners, the statistics and the reports exchange.
use perf_loadgen.Base.{Bool, false, List, [], Text, codes, Int64, Float64, Time, Duration}

pub record RequestSpec : Type 0 where
  pub url : Text
  pub method : Text
  pub headers : List (Text × Text)
  pub body : Text
  pub timeout : Duration

abbrev pub ErrorCategory : Type 0
ErrorCategory = Text

abbrev pub category_none : ErrorCategory
category_none = codes "none"

abbrev pub category_timeout : ErrorCategory
category_timeout = codes "timeout"

abbrev pub category_network : ErrorCategory
category_network = codes "network"

abbrev pub category_http_status : ErrorCategory
category_http_status = codes "http_status"

abbrev pub category_unknown : ErrorCategory
category_unknown = codes "unknown"

pub record RunResult : Type 0 where
  pub success : Bool
  pub latency : Duration
  pub status_code : Int64
  pub error_category : ErrorCategory
  pub error_message : Text
  pub bytes_read : Int64
  pub ttft : Duration
  pub generation_time : Duration
  pub output_tokens : Int64
  pub tokens_estimated : Bool
  pub tokens_per_second : Float64
  pub streaming_aborted : Bool
  pub itl_samples : List Duration
  pub upstream_latency : Duration
  pub input_tokens : Int64
  pub cache_hit : Bool
  pub cache_reported : Bool
  pub provider : Text
  pub model : Text

-- The zero value of the struct.
abbrev pub empty_result : RunResult
empty_result = record {
  success = false;
  latency = 0;
  status_code = 0;
  error_category = [];
  error_message = [];
  bytes_read = 0;
  ttft = 0;
  generation_time = 0;
  output_tokens = 0;
  tokens_estimated = false;
  tokens_per_second = 0;
  streaming_aborted = false;
  itl_samples = [];
  upstream_latency = 0;
  input_tokens = 0;
  cache_hit = false;
  cache_reported = false;
  provider = [];
  model = [];
}

-- The four `Human` fields, which only print the others, are left to the reports.
pub record Percentiles : Type 0 where
  pub p50 : Duration
  pub p90 : Duration
  pub p95 : Duration
  pub p99 : Duration

abbrev pub no_percentiles : Percentiles
no_percentiles = record { p50 = 0; p90 = 0; p95 = 0; p99 = 0 }

pub record HistogramSnapshot : Type 0 where
  pub bounds_micros : List Int64
  pub counts : List Int64

pub record AggregateSnapshot : Type 0 where
  pub start_time : Time
  pub end_time : Time
  pub total_requests : Int64
  pub successful_requests : Int64
  pub failed_requests : Int64
  pub total_latency_micros : Int64
  pub min_latency_micros : Int64
  pub max_latency_micros : Int64
  pub requests_with_ttft : Int64
  pub total_ttft_micros : Int64
  pub requests_with_tokens : Int64
  pub total_output_tokens : Int64
  pub total_token_rate : Float64
  pub streaming_aborted : Int64
  pub status_codes : List (Int64 × Int64)
  pub error_categories : List (ErrorCategory × Int64)
  pub histogram : HistogramSnapshot
  pub ttft_histogram : HistogramSnapshot
  pub itl_histogram : HistogramSnapshot
  pub total_upstream_latency_micros : Int64
  pub requests_with_upstream : Int64
  pub total_input_tokens : Int64
  pub cache_hits : Int64
  pub cache_requests : Int64
  pub provider : Text
  pub model : Text

-- The `Human` fields are left to the reports.
pub record Summary : Type 0 where
  pub start_time : Time
  pub end_time : Time
  pub duration : Duration
  pub total_requests : Int64
  pub successful_requests : Int64
  pub failed_requests : Int64
  pub error_rate : Float64
  pub requests_per_second : Float64
  pub avg_latency : Duration
  pub min_latency : Duration
  pub max_latency : Duration
  pub avg_ttft : Duration
  pub total_output_tokens : Int64
  pub avg_tokens_per_second : Float64
  pub tokens_estimated : Bool
  pub streaming_aborted : Int64
  pub percentiles : Percentiles
  pub ttft_percentiles : Percentiles
  pub itl_percentiles : Percentiles
  pub avg_upstream_latency : Duration
  pub avg_backend_overhead : Duration
  pub upstream_latency_ratio : Float64
  pub total_input_tokens : Int64
  pub cache_hit_rate : Float64
  pub estimated_cost : Float64
  pub provider : Text
  pub model : Text
  pub status_codes : List (Int64 × Int64)
  pub error_categories : List (ErrorCategory × Int64)
