-- ===== src/Protocol/Http/Errors.antt =====
-- internal/protocol/http/runner.go: the result and the error of Run agree.
use perf_loadgen.Base.{
  refl, Bool-cases, Option-cases, Result-cases, [], Option, some, inl, inr, Text, Float64, Floats,
  Duration,
}
use perf_loadgen.Types.{RequestSpec, category_unknown}
use perf_loadgen.Protocol.Httputil.{classify_request_error}
use perf_loadgen.Protocol.Httputil.Reported.{
  IsReported, classify_request_error-none, failed_result-IsReported,
}
use perf_loadgen.Protocol.Http.{
  Response, Client, enrich_inference_metrics, after_body, after_response, run, is_success,
  set_headers,
}

module _ (f : Floats) (parse_float : Text → Option Float64) where
  after_body-IsReported :
      (elapsed : Duration) (resp : Response) → IsReported (after_body f parse_float elapsed resp)
  unfolding after_body enrich_inference_metrics
  after_body-IsReported elapsed resp = elim (Bool-cases (is_success resp.status_code)) [
    | inl good ↦ rw good (refl, refl)
    | inr bad ↦ rw bad (refl, λ h. cc, refl)
  ]

  after_response-IsReported :
      (elapsed : Duration) (resp : Response)
      → IsReported (after_response f parse_float elapsed resp)
  unfolding after_response
  after_response-IsReported elapsed resp = elim (Option-cases resp.body_error) [
    | inl e ↦ rw e (after_body-IsReported elapsed resp)
    | inr (problem, e) ↦ rw e (refl, classify_request_error-none problem, refl)
  ]

  pub run-IsReported :
      (client : Client) (elapsed : Duration) (req : RequestSpec)
      → IsReported (run f parse_float client elapsed req)
  unfolding run
  run-IsReported client elapsed req = elim (Option-cases (client.new_request req)) [
    | inr (problem, e) ↦
        rw (e, run) (failed_result-IsReported category_unknown problem elapsed (λ h. cc))
    | inl e ↦ elim (Result-cases (client.do_request req (set_headers [] req.headers))) [
      | inl (problem, d) ↦
          rw (e, d, run)
            (failed_result-IsReported (classify_request_error (some problem)) problem elapsed
              (classify_request_error-none problem))
      | inr (resp, d) ↦ rw (e, d, run) (after_response-IsReported elapsed resp)
    ]
  ]
