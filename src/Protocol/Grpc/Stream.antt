-- ===== src/Protocol/Grpc/Stream.antt =====
-- internal/protocol/grpc/runner_stream.go: one call that a stream of messages answers.
use perf_loadgen.Base.{
  ℕ, suc, true, false, ◌&&◌, List, [], ◌∷◌, Option, none, some, Text, Int64, Floats, Time, time_sub,
  seconds, add64, is_pos64, is_empty, nat_beq, ltb, two64, ◌%◌, if◌then◌else◌, Result, err, ok,
}
use perf_loadgen.Types.{RequestSpec, RunResult, empty_result, category_none, category_unknown}
use perf_loadgen.Protocol.Httputil.{GoError, Outcome, failed_result}
use perf_loadgen.Protocol.Timing.{Timing, no_chunks, arrive, report_timing}
use perf_loadgen.Protocol.Grpc.{
  Options, full_method, CallError, classify_grpc_error, Codec, build_input, to_json,
  extract_token_count,
}

-- A connection: NewStream for a method, SendMsg, CloseSend, and what RecvMsg returns: the messages
-- in order, and then an error, or none for io.EOF.
pub record Connection (Message : Type 0) : Type 0 where
  pub new_stream : Text → Option CallError
  pub send : Message → Option CallError
  pub close_send : Option CallError
  pub received : List Message
  pub failure : Option CallError

-- The variables of the loop; `readings` is the number of calls of time.Now so far.
pub record Progress : Type 0 where
  pub bytes_read : Int64
  pub timing : Timing
  pub total_tokens : Int64
  pub chunk_count : ℕ
  pub readings : ℕ

abbrev pub no_progress : Progress
no_progress = record {
  bytes_read = 0;
  timing = no_chunks;
  total_tokens = 0;
  chunk_count = 0;
  readings = 1;
}

module _ {Message : Type 0} (f : Floats) (codec : Codec Message) (clock : ℕ → Time) where
  open f use {fdiv, of_int}

  unfoldable pub take_chunk : Text → Progress → Message → Progress
  unfolding arrive to_json extract_token_count
  take_chunk token_field p chunk =
      let json = to_json codec chunk in
      record p {
        chunk_count = suc p.chunk_count;
        bytes_read = add64 p.bytes_read (codec.size chunk);
        timing = arrive p.timing (clock p.readings);
        readings = suc p.readings;
        total_tokens =
            if is_empty json
            then p.total_tokens
            else add64 p.total_tokens (extract_token_count f codec json token_field);
      }

  abbrev pub take_chunks : Text → Progress → List Message → Progress
  take_chunks token_field p [] = p
  take_chunks token_field p (chunk ∷ chunks) =
      take_chunks token_field (take_chunk token_field p chunk) chunks

  abbrev measure_rate : RunResult → RunResult
  measure_rate r = record r {
    tokens_per_second =
        if is_pos64 r.output_tokens && is_pos64 r.generation_time
        then fdiv (of_int r.output_tokens) (seconds f r.generation_time)
        else r.tokens_per_second;
  }

  abbrev estimate_tokens : ℕ → RunResult → RunResult
  estimate_tokens chunk_count r =
      let estimated = nat_beq r.output_tokens 0 && ltb 0 chunk_count in
      record r {
        output_tokens = if estimated then chunk_count % two64 else r.output_tokens;
        tokens_estimated = if estimated then true else r.tokens_estimated;
      }

  -- The result after io.EOF.
  unfoldable pub summarize : Progress → RunResult
  unfolding time_sub report_timing
  summarize p = estimate_tokens p.chunk_count (
      measure_rate
        (record (report_timing (clock 0) p.timing (record empty_result {
          success = true;
          error_category = category_none;
          bytes_read = p.bytes_read;
          latency = time_sub (clock p.readings) (clock 0);
        })) { output_tokens = p.total_tokens }))

  abbrev pub after_last : Progress → Option CallError → Outcome
  after_last p none = (summarize p, none)
  after_last p (some e) = (
    record empty_result {
      success = false;
      error_category = classify_grpc_error e;
      error_message = e.cause.message;
      bytes_read = p.bytes_read;
      latency = time_sub (clock p.readings) (clock 0);
      streaming_aborted = true;
    },
    some e.cause,
  )

  abbrev pub failed : CallError → Outcome
  failed e =
      (failed_result (classify_grpc_error e) e.cause (time_sub (clock 1) (clock 0)), some e.cause)

  abbrev pub aborted : Outcome → Outcome
  aborted (r, e) = (record r { streaming_aborted = true }, e)

  abbrev pub after_close : Connection Message → Options → Option CallError → Outcome
  after_close conn opts none =
      after_last (take_chunks opts.token_field no_progress conn.received) conn.failure
  after_close conn opts (some e) = failed e

  abbrev pub after_send : Connection Message → Options → Option CallError → Outcome
  after_send conn opts none = after_close conn opts conn.close_send
  after_send conn opts (some e) = aborted (failed e)

  abbrev pub after_open : Connection Message → Options → Message → Option CallError → Outcome
  after_open conn opts input none = after_send conn opts (conn.send input)
  after_open conn opts input (some e) = failed e

  abbrev pub after_input : Connection Message → Options → Result GoError Message → Outcome
  after_input conn opts (err e) =
      (failed_result category_unknown e (time_sub (clock 1) (clock 0)), some e)
  after_input conn opts (ok input) = after_open conn opts input (conn.new_stream (full_method opts))

  unfoldable pub run : Connection Message → Options → RequestSpec → Outcome
  unfolding build_input full_method classify_grpc_error failed_result take_chunk summarize time_sub
  run conn opts req = after_input conn opts (build_input codec req.body)
