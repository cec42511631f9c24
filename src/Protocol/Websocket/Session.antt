-- ===== src/Protocol/Websocket/Session.antt =====
-- internal/protocol/websocket/runner.go: Run.
use perf_loadgen.Base.{
  ℕ, suc, Bool, true, false, ◌&&◌, ◌||◌, List, [], ◌∷◌, ◌++◌, Option, none, some, Text, Int64,
  Floats, Time, seconds, time_sub, add64, two64, ◌%◌, byte_count, nat_beq, is_empty, is_pos64,
  trim_space, count_fields, if◌then◌else◌,
}
use perf_loadgen.Types.{RequestSpec, RunResult, empty_result, category_none}
use perf_loadgen.Protocol.Httputil.{GoError, Outcome, classify_request_error, failed_result}
use perf_loadgen.Protocol.Timing.{Timing, no_chunks, arrive, report_timing}
use perf_loadgen.Protocol.Websocket.{Runner, op_text, op_close, op_ping, is_close_error}
use perf_loadgen.Protocol.Websocket.Handshake.{Network, dial}

pub record Frame : Type 0 where
  pub opcode : ℕ
  pub payload : Text

-- What the connection does after the handshake: the errors of writing the request and of answering
-- a ping, the frames that arrive, and the error of the read after them, io.EOF or another.
pub record Connection : Type 0 where
  pub send : Text → Option GoError
  pub pong : Text → Option GoError
  pub frames : List Frame
  pub failure : GoError
  pub at_eof : Bool

-- The variables of the loop; `chunkCount` is only counted, and left out. `readings` is the number of
-- calls of time.Now so far.
pub record Session : Type 0 where
  pub timing : Timing
  pub bytes_read : Int64
  pub text : Text
  pub saw_close : Bool
  pub readings : ℕ

abbrev pub no_session : Session
no_session = record {
  timing = no_chunks;
  bytes_read = 0;
  text = [];
  saw_close = false;
  readings = 1;
}

-- How the loop ends: by a close, an end of the stream, or an error that Run returns.
pub data Ended : Type 0 where
  closed : Session → Ended
  broken : GoError → Session → Ended

unfoldable pub take_frame : (ℕ → Time) → Session → Frame → Session
unfolding arrive byte_count
take_frame clock s frame = record s {
  bytes_read = add64 s.bytes_read (byte_count frame.payload);
  timing = arrive s.timing (clock s.readings);
  readings = suc s.readings;
  text = if nat_beq frame.opcode op_text then s.text ++ frame.payload ++ 32 ∷ [] else s.text;
}

abbrev pub close : Session → Ended
close s = closed (record s { saw_close = true })

-- A ping is answered; an error of the answer ends the loop.
abbrev pub after_pong : Option GoError → Session → Ended → Ended
after_pong none s rest = rest
after_pong (some e) s rest = broken e s

unfoldable pub receive : (ℕ → Time) → Connection → Session → List Frame → Ended
unfolding take_frame is_close_error
receive clock conn s [] =
    if conn.at_eof || is_close_error conn.failure then close s else broken conn.failure s
receive clock conn s (frame ∷ frames) =
    let taken = take_frame clock s frame in
    let rest = receive clock conn taken frames in
    if nat_beq frame.opcode op_close
    then close taken
    else if nat_beq frame.opcode op_ping
    then after_pong (conn.pong frame.payload) taken rest
    else rest

module _ (f : Floats) (clock : ℕ → Time) where
  open f use {fdiv, of_int}

  abbrev count_tokens : Text → RunResult → RunResult
  count_tokens collected r = if is_empty collected then r else record r {
    output_tokens = count_fields false collected % two64;
    tokens_estimated = true;
  }

  abbrev measure_rate : RunResult → RunResult
  measure_rate r = record r {
    tokens_per_second =
        if is_pos64 r.output_tokens && is_pos64 r.generation_time
        then fdiv (of_int r.output_tokens) (seconds f r.generation_time)
        else r.tokens_per_second;
  }

  -- The result after a `break` of the loop.
  unfoldable pub summarize : Session → RunResult
  unfolding time_sub report_timing trim_space count_fields
  summarize s =
      let start = clock 0 in
      let read = record empty_result {
        success = true;
        error_category = category_none;
        bytes_read = s.bytes_read;
        latency = time_sub (clock s.readings) start;
      } in
      let r = measure_rate (count_tokens (trim_space s.text) (report_timing start s.timing read)) in
      record r { streaming_aborted = if s.saw_close then r.streaming_aborted else true }

  unfoldable pub finish : Ended → Outcome
  unfolding summarize classify_request_error time_sub
  finish (closed s) = (summarize s, none)
  finish (broken e s) = (
    record empty_result {
      success = false;
      error_category = classify_request_error (some e);
      error_message = e.message;
      bytes_read = s.bytes_read;
      latency = time_sub (clock s.readings) (clock 0);
      streaming_aborted = true;
    },
    some e,
  )

  abbrev pub after_send : Option GoError → Connection → Outcome
  after_send none conn = finish (receive clock conn no_session conn.frames)
  after_send (some e) conn = (
    record (failed_result (classify_request_error (some e)) e (time_sub (clock 1) (clock 0))) {
      streaming_aborted = true;
    },
    some e,
  )

  abbrev pub after_dial : Option GoError → Connection → RequestSpec → Outcome
  after_dial none conn req = after_send (conn.send req.body) conn
  after_dial (some e) conn req =
      (failed_result (classify_request_error (some e)) e (time_sub (clock 1) (clock 0)), some e)

  unfoldable pub run : Network → Connection → Runner → RequestSpec → Outcome
  unfolding dial finish receive failed_result classify_request_error time_sub
  run net conn r req = after_dial (dial net r req.headers) conn req
