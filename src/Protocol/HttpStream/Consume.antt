-- ===== src/Protocol/HttpStream/Consume.antt =====
-- internal/protocol/httpstream/runner.go: consumeStream and Run. Time is read from a clock: the
-- start of the request is reading 0, and each further call of time.Now the next one.
use perf_loadgen.Base.{
  ℕ, suc, true, false, not, ◌&&◌, [], Option, none, some, Text, Int64, Float64, Floats, Time,
  Duration, seconds, time_sub, codes, is_empty, nat_beq, is_pos64, trim_space, count_fields, length,
  if◌then◌else◌, Result, err, ok, two64, ◌%◌,
}
use perf_loadgen.Types.{
  RequestSpec, RunResult, empty_result, category_none, category_http_status, category_unknown,
}
use perf_loadgen.Protocol.Httputil
use perf_loadgen.Protocol.Httputil.{
  GoError, Outcome, new_error, classify_request_error, failed_result, Headers, header_get,
  parse_duration_header, parse_int_header, parse_float_header, parse_bool_header, enrich_ai_headers,
}
use perf_loadgen.Protocol.Http.{set_headers, is_success, token_rate}
use perf_loadgen.Protocol.Timing.{report_timing}
use perf_loadgen.Protocol.HttpStream.{Runner, Decoder, Format, sse, jsonl, raw, detect_format}
use perf_loadgen.Protocol.HttpStream.Lines.{
  Scan, no_scan, read_lines, take_sse_line, take_json_line,
}

-- A response whose body ends at io.EOF or with an error.
pub record Response : Type 0 where
  pub status_code : Int64
  pub status : Text
  pub headers : Headers
  pub body : Text
  pub body_error : Option GoError

pub record Client : Type 0 where
  pub new_request : RequestSpec → Option GoError
  pub do_request : RequestSpec → Headers → Result GoError Response

unfoldable pub failed_read_result : Int64 → Int64 → Duration → GoError → RunResult
unfolding classify_request_error
failed_read_result status bytes elapsed e = record empty_result {
  success = false;
  status_code = status;
  latency = elapsed;
  bytes_read = bytes;
  error_category = classify_request_error (some e);
  error_message = e.message;
}

module _ (f : Floats) (parse_float : Text → Option Float64) where
  open f use {fdiv, of_int}

  abbrev enrich_timing : Headers → RunResult → RunResult
  enrich_timing headers r = record r {
    ttft =
        if nat_beq r.ttft 0
        then parse_duration_header f parse_float headers (codes "X-Loadgen-TTFT-Ms")
        else r.ttft;
    generation_time =
        if nat_beq r.generation_time 0
        then parse_duration_header f parse_float headers (codes "X-Loadgen-Generation-Ms")
        else r.generation_time;
    output_tokens =
        if nat_beq r.output_tokens 0
        then parse_int_header headers (codes "X-Loadgen-Output-Tokens")
        else r.output_tokens;
  }

  abbrev enrich_rate : Headers → RunResult → RunResult
  enrich_rate headers r = record r {
    tokens_per_second =
        token_rate f parse_float
          (parse_float_header f parse_float headers (codes "X-Loadgen-Tokens-Per-Second")) r;
    streaming_aborted =
        if r.streaming_aborted
        then true
        else parse_bool_header headers (codes "X-Loadgen-Streaming-Aborted");
  }

  abbrev enrich_provider : Headers → RunResult → RunResult
  enrich_provider headers r =
      let cache = header_get headers Httputil.header_ai_cache_hit in
      record r {
        upstream_latency =
            if nat_beq r.upstream_latency 0
            then parse_duration_header f parse_float headers Httputil.header_ai_upstream_latency
            else r.upstream_latency;
        input_tokens =
            if nat_beq r.input_tokens 0
            then parse_int_header headers Httputil.header_ai_input_tokens
            else r.input_tokens;
        cache_reported = if is_empty cache then r.cache_reported else true;
        cache_hit =
            if is_empty cache
            then r.cache_hit
            else parse_bool_header headers Httputil.header_ai_cache_hit;
        provider =
            if is_empty r.provider
            then header_get headers Httputil.header_ai_provider
            else r.provider;
        model = if is_empty r.model then header_get headers Httputil.header_ai_model else r.model;
      }

  unfoldable pub enrich_inference_metrics : Headers → RunResult → RunResult
  unfolding header_get parse_duration_header parse_int_header parse_float_header parse_bool_header
  enrich_inference_metrics headers r =
      enrich_provider headers (enrich_rate headers (enrich_timing headers r))

  -- The number of words, where the stream and the headers gave no number of tokens.
  abbrev estimate_tokens : Text → RunResult → RunResult
  estimate_tokens collected r =
      let estimated = nat_beq r.output_tokens 0 && not (is_empty collected) in
      record r {
        output_tokens = if estimated then count_fields false collected % two64 else r.output_tokens;
        tokens_estimated = if estimated then true else r.tokens_estimated;
      }

  abbrev measure_rate : RunResult → RunResult
  measure_rate r = record r {
    tokens_per_second =
        if nat_beq r.tokens_per_second 0 && is_pos64 r.output_tokens && is_pos64 r.generation_time
        then fdiv (of_int r.output_tokens) (seconds f r.generation_time)
        else r.tokens_per_second;
  }

  -- The part after the loops.
  unfoldable pub summarize : (ℕ → Time) → Response → Int64 → Scan → RunResult
  unfolding enrich_inference_metrics report_timing enrich_ai_headers trim_space count_fields
      time_sub
  summarize clock resp bytes s =
      let start = clock 0 in
      let enriched = enrich_inference_metrics resp.headers (record empty_result {
        success = true;
        status_code = resp.status_code;
        error_category = category_none;
        output_tokens = s.output_tokens;
        bytes_read = bytes;
        latency = time_sub (clock s.readings) start;
      }) in
      let measured =
        measure_rate
          (estimate_tokens (trim_space s.text) (report_timing start s.timing enriched)) in
      let r = record measured {
        streaming_aborted = if s.saw_done then measured.streaming_aborted else true;
      } in
      enrich_ai_headers f parse_float resp.headers r [] []

  module _ (decoder : Decoder) (r : Runner) (clock : ℕ → Time) where
    -- At io.EOF the loop of the formats jsonl and raw counts the stream as done.
    abbrev pub at_end : Format → Scan → Scan
    at_end sse s = s
    at_end jsonl s = record s { saw_done = true }
    at_end raw s = record s { saw_done = true }

    abbrev pub take_line : Format → Scan → Text → Scan
    take_line sse = take_sse_line f decoder r clock
    take_line jsonl = take_json_line f decoder r clock
    take_line raw = take_json_line f decoder r clock

    abbrev pub end_stream : Format → Response → Int64 → Scan → Outcome
    end_stream format resp bytes s = elim resp.body_error [
      | none ↦ (summarize clock resp bytes (at_end format s), none)
      | some e ↦ (
        failed_read_result resp.status_code bytes (time_sub (clock s.readings) (clock 0)) e,
        some e,
      )
    ]

    abbrev pub format_of : Response → Format
    format_of resp = detect_format r (header_get resp.headers (codes "Content-Type"))

    -- `none` would be a loop that has not ended; the fuel is one turn for each character and one more.
    unfoldable pub consume_stream : Response → Option Outcome
    unfolding detect_format header_get read_lines take_sse_line take_json_line summarize
        failed_read_result
    consume_stream resp =
        let format = format_of resp in
        elim (read_lines (take_line format) (suc (length resp.body)) 0 no_scan resp.body) [
          | none ↦ none
          | some (bytes, s) ↦ some (end_stream format resp bytes s)
        ]

    abbrev pub judge_status : Response → Outcome → Outcome
    judge_status resp (result, some e) = (result, some e)
    judge_status resp (result, none) = if is_success resp.status_code then (result, none) else (
      record result {
        success = false;
        error_category = category_http_status;
        error_message = resp.status;
      },
      some (new_error resp.status),
    )

    unfoldable pub run : Client → RequestSpec → Option Outcome
    unfolding set_headers classify_request_error failed_result consume_stream time_sub
    run client req =
        let elapsed = time_sub (clock 1) (clock 0) in
        elim (client.new_request req) [
          | some e ↦ some (failed_result category_unknown e elapsed, some e)
          | none ↦ elim (client.do_request req (set_headers [] req.headers)) [
            | err e ↦ some (failed_result (classify_request_error (some e)) e elapsed, some e)
            | ok resp ↦ elim (consume_stream resp) [
              | none ↦ none
              | some outcome ↦ some (judge_status resp outcome)
            ]
          ]
        ]
