-- ===== src/Protocol/Http.antt =====
-- internal/protocol/http/runner.go: one request and its whole response. The client of net/http is a
-- parameter, as is strconv.ParseFloat.
pub mod Errors
use perf_loadgen.Base.{
  Bool, true, false, ◌&&◌, ◌||◌, List, [], ◌∷◌, Option, none, some, Text, Int64, Float64, Floats,
  Duration, seconds, codes, is_empty, equal_fold, nat_beq, le64, lt64, is_pos64, if◌then◌else◌,
  Result, err, ok,
}
use perf_loadgen.Types.{
  RequestSpec, RunResult, empty_result, category_none, category_http_status, category_unknown,
}
use perf_loadgen.Protocol.Httputil
use perf_loadgen.Protocol.Httputil.{
  GoError, Outcome, new_error, classify_request_error, failed_result, Headers, header_get,
  parse_duration_header, parse_int_header, parse_float_header, parse_bool_header,
}

-- Header.Set: it replaces the values under the name.
unfoldable pub set_header : Headers → Text → Text → Headers
unfolding equal_fold
set_header [] key value = (key, value) ∷ []
set_header ((name, old) ∷ headers) key value =
    let rest = set_header headers key value in
    if equal_fold name key then (name, value) ∷ headers else (name, old) ∷ rest

unfoldable pub set_headers : Headers → Headers → Headers
unfolding set_header
set_headers sent [] = sent
set_headers sent ((key, value) ∷ headers) = set_headers (set_header sent key value) headers

pub record Response : Type 0 where
  pub status_code : Int64
  pub status : Text
  pub headers : Headers
  -- What io.Copy reads of the body: its bytes, and an error that ends it.
  pub body_bytes : Int64
  pub body_error : Option GoError

-- NewRequestWithContext and Client.Do, the latter with the headers of the request.
pub record Client : Type 0 where
  pub new_request : RequestSpec → Option GoError
  pub do_request : RequestSpec → Headers → Result GoError Response

abbrev pub or_duration : Duration → Duration → Duration
or_duration a b = if is_pos64 a then a else b

abbrev pub or_int : Int64 → Int64 → Int64
or_int a b = if is_pos64 a then a else b

abbrev pub is_success : Int64 → Bool
is_success status = le64 200 status && lt64 status 400

module _ (f : Floats) (parse_float : Text → Option Float64) where
  open f use {fdiv, of_int, flt, lit}

  -- The rate that a header gives, or the one of the tokens over the generation time.
  abbrev pub token_rate : Float64 → RunResult → Float64
  token_rate given r =
      if nat_beq r.tokens_per_second 0
      then if flt (lit 0 1) given
        then given
        else if is_pos64 r.output_tokens && is_pos64 r.generation_time
        then fdiv (of_int r.output_tokens) (seconds f r.generation_time)
        else r.tokens_per_second
      else r.tokens_per_second

  abbrev pub enrich_timing : Headers → RunResult → RunResult
  enrich_timing headers r = record r {
    ttft =
        or_duration r.ttft
          (parse_duration_header f parse_float headers (codes "X-Loadgen-TTFT-Ms"));
    generation_time =
        or_duration r.generation_time
          (parse_duration_header f parse_float headers (codes "X-Loadgen-Generation-Ms"));
    output_tokens =
        or_int r.output_tokens (parse_int_header headers (codes "X-Loadgen-Output-Tokens"));
  }

  abbrev pub enrich_rate : Headers → RunResult → RunResult
  enrich_rate headers r = record r {
    tokens_per_second =
        token_rate (parse_float_header f parse_float headers (codes "X-Loadgen-Tokens-Per-Second"))
          r;
    streaming_aborted =
        r.streaming_aborted || parse_bool_header headers (codes "X-Loadgen-Streaming-Aborted");
  }

  abbrev pub enrich_provider : Headers → RunResult → RunResult
  enrich_provider headers r =
      let cache = header_get headers Httputil.header_ai_cache_hit in
      record r {
        upstream_latency =
            if nat_beq r.upstream_latency 0
            then parse_duration_header f parse_float headers Httputil.header_ai_upstream_latency
            else r.upstream_latency;
        ttft =
            if nat_beq r.ttft 0
            then parse_duration_header f parse_float headers Httputil.header_ai_first_token
            else r.ttft;
        input_tokens =
            or_int r.input_tokens (parse_int_header headers Httputil.header_ai_input_tokens);
        output_tokens =
            or_int r.output_tokens (parse_int_header headers Httputil.header_ai_output_tokens);
        cache_reported = if is_empty cache then r.cache_reported else true;
        cache_hit =
            if is_empty cache
            then r.cache_hit
            else parse_bool_header headers Httputil.header_ai_cache_hit;
        provider =
            if is_empty r.provider
            then header_get headers Httputil.header_ai_provider
            else r.provider;
        model = if is_empty r.model then header_get headers Httputil.header_ai_model else r.model;
      }

  unfoldable pub enrich_inference_metrics : Headers → RunResult → RunResult
  unfolding header_get parse_duration_header parse_int_header parse_float_header parse_bool_header
  enrich_inference_metrics headers r =
      enrich_provider headers (enrich_rate headers (enrich_timing headers r))

  -- The part after the body was read.
  unfoldable pub after_body : Duration → Response → Outcome
  unfolding enrich_inference_metrics
  after_body elapsed resp =
      let result = enrich_inference_metrics resp.headers (record empty_result {
        success = is_success resp.status_code;
        latency = elapsed;
        status_code = resp.status_code;
        error_category = category_none;
        bytes_read = resp.body_bytes;
      }) in
      if is_success resp.status_code then (result, none) else (
        record result { error_category = category_http_status; error_message = resp.status },
        some (new_error resp.status),
      )

  unfoldable pub after_response : Duration → Response → Outcome
  unfolding after_body classify_request_error
  after_response elapsed resp = elim resp.body_error [
    | none ↦ after_body elapsed resp
    | some e ↦ (
      record empty_result {
        success = false;
        latency = elapsed;
        status_code = resp.status_code;
        error_category = classify_request_error (some e);
        error_message = e.message;
        bytes_read = resp.body_bytes;
      },
      some e,
    )
  ]

  -- `Run`, for the time since its start that it measures.
  unfoldable pub run : Client → Duration → RequestSpec → Outcome
  unfolding set_headers classify_request_error failed_result after_response
  run client elapsed req = elim (client.new_request req) [
    | some e ↦ (failed_result category_unknown e elapsed, some e)
    | none ↦ elim (client.do_request req (set_headers [] req.headers)) [
      | err e ↦ (failed_result (classify_request_error (some e)) e elapsed, some e)
      | ok resp ↦ after_response elapsed resp
    ]
  ]
