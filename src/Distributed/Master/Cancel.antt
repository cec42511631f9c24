-- ===== src/Distributed/Master/Cancel.antt =====
-- internal/distributed/master.go, CancelWorkerJob: the request that ends a job on a worker.
use perf_loadgen.Base.{
  ◌≡◌, refl, true, false, [], trim_prefix, Option, none, some, ◌++◌, ◌==◌, leb, if◌then◌else◌, Text,
  codes, is_empty, text_eq, arith, lookup, ok, inl, ℕ,
}
use perf_loadgen.Distributed.Auth.{Request, auth_middleware, sign_job}
use perf_loadgen.Distributed.Auth.Access.{signed, auth_middleware_iff, trim_append}
use perf_loadgen.Distributed.Worker.{Worker, handle_cancel}
use perf_loadgen.Distributed.Master.{
  Network, Outgoing, unbuilt, unanswered, answered, endpoint, bad_status,
}

module _ (net : Network) where
  unfoldable pub cancel_request : Text → Text → Text → Outgoing
  cancel_request secret address job_id = record {
    method = codes "POST";
    url = endpoint address (codes "/cancel/" ++ job_id);
    body = [];
    authorization = sign_job net.hex_hmac job_id secret;
  }

  -- The error, if any.
  unfoldable pub cancel_worker_job : Text → Text → Text → Option Text
  cancel_worker_job secret address job_id =
      elim (net.exchange 0 (cancel_request secret address job_id)) [
        | unbuilt e ↦ some e
        | unanswered e ↦ some e
        | answered a ↦ if leb 300 a.status_code then some (bad_status a) else none
      ]

  handle_named :
      (r : Request) (job_id : Text) (w : Worker) (ctx : ℕ)
      → (r.method == codes "POST") ≡ true
      → trim_prefix r.path (codes "/cancel/") ≡ job_id
      → is_empty job_id ≡ false
      → lookup job_id w.jobs ≡ some ctx
      → handle_cancel r w ≡ ok ctx
  unfolding handle_cancel
  handle_named r job_id w ctx post path given running = ground (arith, post, path, given, running)

  -- The cancel request for a named job that runs on a worker with the same secret passes the
  -- worker's middleware and ends the context of that job, where the path arrives as it was sent.
  pub cancel_request-handled :
      (address job_id : Text) (w : Worker) (ctx : ℕ)
      → is_empty job_id ≡ false
      → lookup job_id w.jobs ≡ some ctx
      → let out = cancel_request w.secret address job_id in
        let r : Request = record {
          method = out.method;
          path = codes "/cancel/" ++ job_id;
          authorization = out.authorization;
        } in
        (out.url ≡ endpoint address r.path)
        × (auth_middleware net.hex_hmac w.secret r ≡ true)
        × (handle_cancel r w ≡ ok ctx)
  unfolding cancel_request
  cancel_request-handled address job_id w ctx given running = (
    refl,
    (auth_middleware_iff net.hex_hmac w.secret _).1 (signed job_id (given, inl refl) refl),
    handle_named _ job_id w ctx refl (trim_append (codes "/cancel/") job_id) given running,
  )
