-- ===== src/Stats/Collector.antt =====
-- internal/stats/collector.go: the aggregate of a run, its snapshot, and their merging.
pub mod Counting
pub mod Tallies
pub mod Extremes
pub mod Agreement
pub mod Samples
pub mod Distributed
use perf_loadgen.Base.{
  ℕ, ◌+◌, ◌%◌, Bool, true, false, not, ◌&&◌, ◌||◌, List, [], ◌∷◌, ltb, leb, nat_beq, ◌==◌, text_eq,
  nat_eq, if◌then◌else◌, Text, codes, is_empty, Int64, add64, sub64, lt64, is_pos64, quot64, bump,
  bump_all, Floats, Float64, Time, Duration, time_is_zero, time_sub, microseconds, of_micros,
  seconds, second,
}
use perf_loadgen.Types.{
  RunResult, ErrorCategory, category_none, Percentiles, no_percentiles, AggregateSnapshot, Summary,
}
use perf_loadgen.Stats.Histogram.{Histogram}
use perf_loadgen.Stats.Histogram

pub record Collector : Type 0 where
  pub start_time : Time
  pub end_time : Time
  pub total_requests : Int64
  pub success_requests : Int64
  pub failed_requests : Int64
  pub total_latency : Duration
  pub min_latency : Duration
  pub max_latency : Duration
  pub requests_with_ttft : Int64
  pub total_ttft : Duration
  pub min_ttft : Duration
  pub max_ttft : Duration
  pub requests_with_tokens : Int64
  pub total_output_tokens : Int64
  pub tokens_estimated : Bool
  pub total_token_rate : Float64
  pub streaming_aborted : Int64
  pub status_codes : List (Int64 × Int64)
  pub error_categories : List (ErrorCategory × Int64)
  pub histogram : Histogram
  pub ttft_hist : Histogram
  pub itl_hist : Histogram
  pub total_upstream_latency : Duration
  pub requests_with_upstream : Int64
  pub total_input_tokens : Int64
  pub cache_hits : Int64
  pub cache_requests : Int64
  pub provider : Text
  pub model : Text
  pub model_price_per_1k : Float64

unfoldable pub set_pricing : Float64 → Collector → Collector
set_pricing price c = record c { model_price_per_1k = price }

unfoldable pub set_window : Time → Time → Collector → Collector
set_window start end_ c = record c { start_time = start; end_time = end_ }

-- The loop over `result.ITLSamples`.
unfoldable pub record_positive : Histogram → List Duration → Histogram
record_positive h [] = h
record_positive h (d ∷ ds) =
    record_positive (if is_pos64 d then Histogram.record_latency h d else h) ds

-- The first value that is not empty stays.
abbrev pub keep_first : Text → Text → Text
keep_first old new = if not (is_empty new) && is_empty old then new else old

unfoldable pub snapshot : Collector → AggregateSnapshot
snapshot c = record {
  start_time = c.start_time;
  end_time = c.end_time;
  total_requests = c.total_requests;
  successful_requests = c.success_requests;
  failed_requests = c.failed_requests;
  total_latency_micros = microseconds c.total_latency;
  min_latency_micros = microseconds c.min_latency;
  max_latency_micros = microseconds c.max_latency;
  requests_with_ttft = c.requests_with_ttft;
  total_ttft_micros = microseconds c.total_ttft;
  requests_with_tokens = c.requests_with_tokens;
  total_output_tokens = c.total_output_tokens;
  total_token_rate = c.total_token_rate;
  streaming_aborted = c.streaming_aborted;
  status_codes = c.status_codes;
  error_categories = c.error_categories;
  histogram = Histogram.snapshot c.histogram;
  ttft_histogram = Histogram.snapshot c.ttft_hist;
  itl_histogram = Histogram.snapshot c.itl_hist;
  total_upstream_latency_micros = microseconds c.total_upstream_latency;
  requests_with_upstream = c.requests_with_upstream;
  total_input_tokens = c.total_input_tokens;
  cache_hits = c.cache_hits;
  cache_requests = c.cache_requests;
  provider = c.provider;
  model = c.model;
}

module _ (f : Floats) where
  open f use {of_int, fadd, fmul, fdiv, flt, lit}

  -- `NewCollector`.
  unfoldable pub new : Collector
  new = record {
    start_time = 0;
    end_time = 0;
    total_requests = 0;
    success_requests = 0;
    failed_requests = 0;
    total_latency = 0;
    min_latency = 0;
    max_latency = 0;
    requests_with_ttft = 0;
    total_ttft = 0;
    min_ttft = 0;
    max_ttft = 0;
    requests_with_tokens = 0;
    total_output_tokens = 0;
    tokens_estimated = false;
    total_token_rate = 0;
    streaming_aborted = 0;
    status_codes = [];
    error_categories = [];
    histogram = Histogram.new f;
    ttft_hist = Histogram.new f;
    itl_hist = Histogram.new f;
    total_upstream_latency = 0;
    requests_with_upstream = 0;
    total_input_tokens = 0;
    cache_hits = 0;
    cache_requests = 0;
    provider = [];
    model = [];
    model_price_per_1k = 0;
  }

  unfoldable pub add : Collector → RunResult → Collector
  add c r =
      let timed = is_pos64 r.ttft in
      let cached = r.cache_reported || r.cache_hit in
      record c {
        min_latency =
            if nat_beq c.total_requests 0 || lt64 r.latency c.min_latency
            then r.latency
            else c.min_latency;
        max_latency = if lt64 c.max_latency r.latency then r.latency else c.max_latency;
        total_requests = add64 c.total_requests 1;
        total_latency = add64 c.total_latency r.latency;
        histogram = Histogram.record_latency c.histogram r.latency;
        requests_with_ttft = if timed then add64 c.requests_with_ttft 1 else c.requests_with_ttft;
        total_ttft = if timed then add64 c.total_ttft r.ttft else c.total_ttft;
        ttft_hist = if timed then Histogram.record_latency c.ttft_hist r.ttft else c.ttft_hist;
        min_ttft =
            if timed && (nat_beq c.min_ttft 0 || lt64 r.ttft c.min_ttft)
            then r.ttft
            else c.min_ttft;
        max_ttft = if timed && lt64 c.max_ttft r.ttft then r.ttft else c.max_ttft;
        itl_hist = record_positive c.itl_hist r.itl_samples;
        requests_with_tokens =
            if is_pos64 r.output_tokens
            then add64 c.requests_with_tokens 1
            else c.requests_with_tokens;
        total_output_tokens =
            if is_pos64 r.output_tokens
            then add64 c.total_output_tokens r.output_tokens
            else c.total_output_tokens;
        tokens_estimated =
            if is_pos64 r.output_tokens && r.tokens_estimated then true else c.tokens_estimated;
        total_token_rate =
            if flt (lit 0 1) r.tokens_per_second
            then fadd c.total_token_rate r.tokens_per_second
            else c.total_token_rate;
        streaming_aborted =
            if r.streaming_aborted then add64 c.streaming_aborted 1 else c.streaming_aborted;
        success_requests = if r.success then add64 c.success_requests 1 else c.success_requests;
        failed_requests = if r.success then c.failed_requests else add64 c.failed_requests 1;
        status_codes =
            if is_pos64 r.status_code then bump r.status_code 1 c.status_codes else c.status_codes;
        error_categories =
            if r.error_category == category_none
            then c.error_categories
            else bump r.error_category 1 c.error_categories;
        requests_with_upstream =
            if is_pos64 r.upstream_latency
            then add64 c.requests_with_upstream 1
            else c.requests_with_upstream;
        total_upstream_latency =
            if is_pos64 r.upstream_latency
            then add64 c.total_upstream_latency r.upstream_latency
            else c.total_upstream_latency;
        total_input_tokens =
            if is_pos64 r.input_tokens
            then add64 c.total_input_tokens r.input_tokens
            else c.total_input_tokens;
        provider = keep_first c.provider r.provider;
        model = keep_first c.model r.model;
        cache_requests = if cached then add64 c.cache_requests 1 else c.cache_requests;
        cache_hits = if cached && r.cache_hit then add64 c.cache_hits 1 else c.cache_hits;
      }

  unfoldable pub merge_window : Collector → AggregateSnapshot → Collector
  merge_window c s = record c {
    start_time =
        if not (time_is_zero s.start_time)
          && (time_is_zero c.start_time || ltb s.start_time c.start_time)
        then s.start_time
        else c.start_time;
    end_time = if ltb c.end_time s.end_time then s.end_time else c.end_time;
  }

  -- What `MergeSnapshot` does after the test for an empty snapshot.
  unfoldable pub merge_totals : Collector → AggregateSnapshot → Collector
  merge_totals c s =
      let incoming_min = of_micros s.min_latency_micros in
      let incoming_max = of_micros s.max_latency_micros in
      record c {
        min_latency =
            if nat_beq c.total_requests 0
              || (is_pos64 incoming_min && lt64 incoming_min c.min_latency)
            then incoming_min
            else c.min_latency;
        max_latency = if lt64 c.max_latency incoming_max then incoming_max else c.max_latency;
        total_requests = add64 c.total_requests s.total_requests;
        success_requests = add64 c.success_requests s.successful_requests;
        failed_requests = add64 c.failed_requests s.failed_requests;
        total_latency = add64 c.total_latency (of_micros s.total_latency_micros);
        requests_with_ttft = add64 c.requests_with_ttft s.requests_with_ttft;
        total_ttft = add64 c.total_ttft (of_micros s.total_ttft_micros);
        requests_with_tokens = add64 c.requests_with_tokens s.requests_with_tokens;
        total_output_tokens = add64 c.total_output_tokens s.total_output_tokens;
        total_token_rate = fadd c.total_token_rate s.total_token_rate;
        streaming_aborted = add64 c.streaming_aborted s.streaming_aborted;
        histogram = Histogram.merge c.histogram s.histogram;
        ttft_hist = Histogram.merge c.ttft_hist s.ttft_histogram;
        itl_hist = Histogram.merge c.itl_hist s.itl_histogram;
        total_upstream_latency =
            add64 c.total_upstream_latency (of_micros s.total_upstream_latency_micros);
        requests_with_upstream = add64 c.requests_with_upstream s.requests_with_upstream;
        total_input_tokens = add64 c.total_input_tokens s.total_input_tokens;
        cache_hits = add64 c.cache_hits s.cache_hits;
        cache_requests = add64 c.cache_requests s.cache_requests;
        provider = keep_first c.provider s.provider;
        model = keep_first c.model s.model;
        status_codes = bump_all s.status_codes c.status_codes;
        error_categories = bump_all s.error_categories c.error_categories;
      }

  -- `MergeSnapshot`.
  unfoldable pub merge : Collector → AggregateSnapshot → Collector
  unfolding merge_window merge_totals
  merge c s =
      let windowed = merge_window c s in
      if nat_beq s.total_requests 0 then windowed else merge_totals windowed s

  -- `NewCollectorFromSnapshot`.
  unfoldable pub of_snapshot : AggregateSnapshot → Collector
  unfolding new merge
  of_snapshot s = merge new s

  unfoldable pub percentiles : Histogram → Percentiles
  percentiles h = record {
    p50 = Histogram.quantile f h (lit 50 100);
    p90 = Histogram.quantile f h (lit 90 100);
    p95 = Histogram.quantile f h (lit 95 100);
    p99 = Histogram.quantile f h (lit 99 100);
  }

  unfoldable pub empty_summary : Collector → Summary
  empty_summary c = record {
    start_time = c.start_time;
    end_time = c.end_time;
    duration = time_sub c.end_time c.start_time;
    total_requests = c.total_requests;
    successful_requests = 0;
    failed_requests = 0;
    error_rate = 0;
    requests_per_second = 0;
    avg_latency = 0;
    min_latency = 0;
    max_latency = 0;
    avg_ttft = 0;
    total_output_tokens = 0;
    avg_tokens_per_second = 0;
    tokens_estimated = false;
    streaming_aborted = 0;
    percentiles = no_percentiles;
    ttft_percentiles = no_percentiles;
    itl_percentiles = no_percentiles;
    avg_upstream_latency = 0;
    avg_backend_overhead = 0;
    upstream_latency_ratio = 0;
    total_input_tokens = 0;
    cache_hit_rate = 0;
    estimated_cost = 0;
    provider = [];
    model = [];
    status_codes = c.status_codes;
    error_categories = c.error_categories;
  }

  unfoldable pub full_summary : Collector → Summary
  unfolding empty_summary percentiles
  full_summary c =
      let avg_latency = quot64 c.total_latency c.total_requests in
      let avg_upstream =
        if is_pos64 c.requests_with_upstream
        then quot64 c.total_upstream_latency c.requests_with_upstream
        else 0 in
      let split = is_pos64 avg_latency && is_pos64 avg_upstream in
      let duration = time_sub c.end_time c.start_time in
      record (empty_summary c) {
        successful_requests = c.success_requests;
        failed_requests = c.failed_requests;
        error_rate = fdiv (of_int c.failed_requests) (of_int c.total_requests);
        avg_latency = avg_latency;
        min_latency = c.min_latency;
        max_latency = c.max_latency;
        avg_ttft =
            if is_pos64 c.requests_with_ttft then quot64 c.total_ttft c.requests_with_ttft else 0;
        ttft_percentiles =
            if is_pos64 c.requests_with_ttft then percentiles c.ttft_hist else no_percentiles;
        itl_percentiles =
            if is_pos64 (Histogram.total c.itl_hist)
            then percentiles c.itl_hist
            else no_percentiles;
        total_output_tokens = c.total_output_tokens;
        tokens_estimated = c.tokens_estimated;
        avg_tokens_per_second =
            if is_pos64 c.requests_with_tokens
            then fdiv c.total_token_rate (of_int c.requests_with_tokens)
            else 0;
        streaming_aborted = c.streaming_aborted;
        avg_upstream_latency = avg_upstream;
        avg_backend_overhead = if split then sub64 avg_latency avg_upstream else 0;
        upstream_latency_ratio =
            if split then fdiv (of_int avg_upstream) (of_int avg_latency) else 0;
        total_input_tokens = c.total_input_tokens;
        cache_hit_rate =
            if is_pos64 c.cache_requests
            then fdiv (of_int c.cache_hits) (of_int c.cache_requests)
            else 0;
        provider = c.provider;
        model = c.model;
        estimated_cost =
            if flt (lit 0 1) c.model_price_per_1k && is_pos64 c.total_output_tokens
            then fdiv (fmul (of_int c.total_output_tokens) c.model_price_per_1k) (lit 1000 1)
            else 0;
        percentiles = percentiles c.histogram;
        requests_per_second =
            if flt (lit 0 1) (seconds f duration)
            then fdiv (of_int c.total_requests) (seconds f duration)
            else 0;
      }

  -- `Summary`.
  unfoldable pub summary : Collector → Summary
  unfolding empty_summary full_summary
  summary c = if nat_beq c.total_requests 0 then empty_summary c else full_summary c
