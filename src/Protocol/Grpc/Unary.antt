-- ===== src/Protocol/Grpc/Unary.antt =====
-- internal/protocol/grpc/runner_unary.go: one unary call.
use perf_loadgen.Base.{true, none, some, Text, Duration, Result, err, ok}
use perf_loadgen.Types.{RequestSpec, empty_result, category_none, category_unknown}
use perf_loadgen.Protocol.Httputil.{GoError, Outcome, failed_result}
use perf_loadgen.Protocol.Grpc.{
  Options, full_method, CallError, classify_grpc_error, Codec, build_input,
}

module _ {Message : Type 0} (codec : Codec Message) (opts : Options) where
  abbrev pub after_call : Duration → Result CallError Message → Outcome
  after_call elapsed (err e) = (failed_result (classify_grpc_error e) e.cause elapsed, some e.cause)
  after_call elapsed (ok output) = (
    record empty_result {
      success = true;
      latency = elapsed;
      status_code = 0;
      error_category = category_none;
      bytes_read = codec.size output;
    },
    none,
  )

  abbrev pub after_input :
      (Text → Message → Result CallError Message) → Duration → Result GoError Message → Outcome
  after_input invoke elapsed (err e) = (failed_result category_unknown e elapsed, some e)
  after_input invoke elapsed (ok input) = after_call elapsed (invoke (full_method opts) input)

  -- `Run`, for the Invoke of the connection and the time since its start.
  unfoldable pub run :
      (Text → Message → Result CallError Message) → Duration → RequestSpec → Outcome
  unfolding build_input full_method classify_grpc_error failed_result
  run invoke elapsed req = after_input invoke elapsed (build_input codec req.body)
