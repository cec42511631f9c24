-- ===== src/Protocol/Grpc/Errors.antt =====
-- internal/protocol/grpc: the outcomes of the two runners.
use perf_loadgen.Base.{
  ℕ, ◌≢◌, refl, true, false, ◌||◌, Bool, Option-cases, inl, inr, Option, none, some, Text, Floats,
  Time, Duration, nat_beq, if◌then◌else◌, Result, ok, err, time_sub,
}
use perf_loadgen.Types.{
  RequestSpec, category_none, category_unknown, category_timeout, category_network,
}
use perf_loadgen.Protocol.Httputil.{GoError, Outcome, failed_result}
use perf_loadgen.Protocol.Httputil.Reported.{
  IsReported, classify_request_error-none, failed_result-IsReported,
}
use perf_loadgen.Protocol.Timing.{report_timing}
use perf_loadgen.Protocol.Grpc.{
  Options, full_method, CallError, classify_grpc_error, Codec, build_input,
}
use perf_loadgen.Protocol.Grpc.Unary
use perf_loadgen.Protocol.Grpc.Stream.{
  Connection, Progress, no_progress, take_chunks, summarize, after_last, after_close, after_send,
  after_open, after_input, run, failed, aborted,
}

category_of-none :
    (a b : Bool)
    → (if a then category_timeout else if b then category_network else category_unknown)
      ≢ category_none
category_of-none true b h = cc
category_of-none false true h = cc
category_of-none false false h = cc

classify_grpc_error-none : (e : CallError) → classify_grpc_error e ≢ category_none
unfolding classify_grpc_error
classify_grpc_error-none e = elim (Option-cases e.code) [
  | inl d ↦ rw d (classify_request_error-none e.cause)
  | inr (code, d) ↦ rw d (
      category_of-none (nat_beq code 4 || nat_beq code 1)
        (nat_beq code 14 || nat_beq code 10 || nat_beq code 8))
]

call_failed :
    (e : CallError) (elapsed : Duration)
    → IsReported (failed_result (classify_grpc_error e) e.cause elapsed, some e.cause)
call_failed e elapsed =
    failed_result-IsReported (classify_grpc_error e) e.cause elapsed (classify_grpc_error-none e)

module _ {Message : Type 0} (codec : Codec Message) (opts : Options) where
  unary_answer :
      (elapsed : Duration) (answer : Result CallError Message)
      → IsReported (Unary.after_call codec opts elapsed answer)
  unary_answer elapsed (err e) = call_failed e elapsed
  unary_answer elapsed (ok output) = (refl, refl)

  unary_input :
      (invoke : Text → Message → Result CallError Message) (elapsed : Duration)
      (input : Result GoError Message)
      → IsReported (Unary.after_input codec opts invoke elapsed input)
  unary_input invoke elapsed (err e) = failed_result-IsReported category_unknown e elapsed (λ h. cc)
  unary_input invoke elapsed (ok input) = unary_answer elapsed (invoke (full_method opts) input)

module _ {Message : Type 0} (f : Floats) (codec : Codec Message) (clock : ℕ → Time) where
  summarize-IsReported : (p : Progress) → IsReported (summarize f codec clock p, none)
  unfolding summarize report_timing
  summarize-IsReported p = (refl, refl)

  after_last-IsReported :
      (p : Progress) (failure : Option CallError) → IsReported (after_last f codec clock p failure)
  after_last-IsReported p none = summarize-IsReported p
  after_last-IsReported p (some e) = (refl, classify_grpc_error-none e, refl)

  failed-IsReported : (e : CallError) → IsReported (failed f codec clock e)
  failed-IsReported e = call_failed e (time_sub (clock 1) (clock 0))

  aborted-IsReported :
      (outcome : Outcome) → IsReported outcome → IsReported (aborted f codec clock outcome)
  aborted-IsReported (r, none) h = h
  aborted-IsReported (r, some e) h = h

  close_answer :
      (conn : Connection Message) (opts : Options) (answer : Option CallError)
      → IsReported (after_close f codec clock conn opts answer)
  close_answer conn opts none =
      after_last-IsReported (take_chunks f codec clock opts.token_field no_progress conn.received)
        conn.failure
  close_answer conn opts (some e) = failed-IsReported e

  send_answer :
      (conn : Connection Message) (opts : Options) (answer : Option CallError)
      → IsReported (after_send f codec clock conn opts answer)
  send_answer conn opts none = close_answer conn opts conn.close_send
  send_answer conn opts (some e) = aborted-IsReported (failed f codec clock e) (failed-IsReported e)

  open_answer :
      (conn : Connection Message) (opts : Options) (input : Message) (answer : Option CallError)
      → IsReported (after_open f codec clock conn opts input answer)
  open_answer conn opts input none = send_answer conn opts (conn.send input)
  open_answer conn opts input (some e) = failed-IsReported e

  stream_input :
      (conn : Connection Message) (opts : Options) (input : Result GoError Message)
      → IsReported (after_input f codec clock conn opts input)
  stream_input conn opts (err e) =
      failed_result-IsReported category_unknown e (time_sub (clock 1) (clock 0)) (λ h. cc)
  stream_input conn opts (ok input) =
      open_answer conn opts input (conn.new_stream (full_method opts))

  -- For a unary call and for a stream, the two parts of an outcome agree: no error, success and the
  -- category none, or an error, no success, another category and the error's message.
  pub run-IsReported :
      (conn : Connection Message) (opts : Options) (req : RequestSpec)
      (invoke : Text → Message → Result CallError Message) (elapsed : Duration)
      → IsReported (Unary.run codec opts invoke elapsed req)
        × IsReported (run f codec clock conn opts req)
  unfolding run Unary.run
  run-IsReported conn opts req invoke elapsed = (
    unary_input codec opts invoke elapsed (build_input codec req.body),
    stream_input conn opts (build_input codec req.body),
  )
