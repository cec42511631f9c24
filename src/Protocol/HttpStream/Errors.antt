-- ===== src/Protocol/HttpStream/Errors.antt =====
-- internal/protocol/httpstream/runner.go: Run returns, and its result and its error agree.
use perf_loadgen.Base.{
  ℕ, ◌≡◌, refl, Bool-cases, Option-cases, Result-cases, inl, inr, [], Option, none, some, Text,
  Int64, Float64, Floats, Time, time_sub,
}
use perf_loadgen.Types.{RequestSpec, category_unknown}
use perf_loadgen.Protocol.Httputil.{
  Outcome, classify_request_error, failed_result, enrich_ai_headers,
}
use perf_loadgen.Protocol.Httputil.Reported.{
  IsReported, classify_request_error-none, failed_result-IsReported,
}
use perf_loadgen.Protocol.Http.{set_headers, is_success}
use perf_loadgen.Protocol.Timing.{report_timing}
use perf_loadgen.Protocol.HttpStream.{Runner, Decoder, Format}
use perf_loadgen.Protocol.HttpStream.Lines.{Scan}
use perf_loadgen.Protocol.HttpStream.Consume.{
  Response, Client, run, end_stream, judge_status, summarize, failed_read_result,
  enrich_inference_metrics, format_of,
}
use perf_loadgen.Protocol.HttpStream.Progress.{consume_stream-end_stream}

module _ (f : Floats) (parse_float : Text → Option Float64) (decoder : Decoder) (r : Runner)
    (clock : ℕ → Time) where
  end_stream-IsReported :
      (format : Format) (resp : Response) (bytes : Int64) (s : Scan)
      → IsReported (end_stream f parse_float decoder r clock format resp bytes s)
  unfolding summarize failed_read_result enrich_inference_metrics report_timing enrich_ai_headers
  end_stream-IsReported format resp bytes s = elim (Option-cases resp.body_error) [
    | inl e ↦ rw e (refl, refl)
    | inr (problem, e) ↦ rw e (refl, classify_request_error-none problem, refl)
  ]

  judge_status-IsReported :
      (resp : Response) (outcome : Outcome)
      → IsReported outcome
      → IsReported (judge_status f parse_float decoder r clock resp outcome)
  judge_status-IsReported resp (result, some e) h = h
  judge_status-IsReported resp (result, none) h = elim (Bool-cases (is_success resp.status_code)) [
    | inl good ↦ rw good h
    | inr bad ↦ rw bad (refl, λ e. cc, refl)
  ]

  -- Run returns an outcome for every client and request, and its two parts agree: no error, success
  -- and the category none, or an error, no success, another category and the error's message.
  pub run_total :
      (client : Client) (req : RequestSpec)
      → (outcome : Outcome) × (run f parse_float decoder r clock client req ≡ some outcome)
        × IsReported outcome
  unfolding run
  run_total client req = elim (Option-cases (client.new_request req)) [
    | inr (problem, e) ↦ (
      (failed_result category_unknown problem elapsed, some problem),
      rw (e, run) refl,
      failed_result-IsReported category_unknown problem elapsed (λ h. cc),
    )
    | inl e ↦ elim (Result-cases (client.do_request req (set_headers [] req.headers))) [
      | inl (problem, d) ↦ (
        (failed_result (classify_request_error (some problem)) problem elapsed, some problem),
        rw (e, d, run) refl,
        failed_result-IsReported (classify_request_error (some problem)) problem elapsed
            (classify_request_error-none problem),
      )
      | inr (resp, d) ↦
          let (bytes, s, c, _) = consume_stream-end_stream f parse_float decoder r clock resp in
          let format = format_of f parse_float decoder r clock resp in
          (
            judge_status f parse_float decoder r clock resp
                (end_stream f parse_float decoder r clock format resp bytes s),
            rw (e, d, c, run) refl,
            judge_status-IsReported resp _ (end_stream-IsReported format resp bytes s),
          )
    ]
  ]
    where
      elapsed : Int64
      elapsed = time_sub (clock 1) (clock 0)
