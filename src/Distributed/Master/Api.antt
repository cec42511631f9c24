-- ===== src/Distributed/Master/Api.antt =====
-- internal/distributed/master.go: the handlers of the job API, on the queue.
pub mod Acceptance
use mathlib.Core.Path.{subst}
use perf_loadgen.Base.{
  ℕ, ◌≡◌, ◌≢◌, refl, sym, ap, ◌∙◌, ◌↔◌, ◌⊎◌, inl, inr, ◌<◌, Bool, true, false, List, [], ◌∷◌,
  Option, none, some, arith, length, leb, Bool-cases, Option-cases, if◌then◌else◌, ◌==◌, Text,
  codes, text_eq, text_beq_iff, is_empty, trim_prefix, trim_space, split, Time, Floats, Result, ok,
  err,
}
use perf_loadgen.Config.{Config, ConfigError, Urls, validate}
use perf_loadgen.Config.Validity.{IsValid, validate_iff}
use perf_loadgen.Distributed.{JobSpec, JobInfo, WorkerState}
use perf_loadgen.Distributed.Queue.{
  JobQueue, QueueError, queue_full, enqueue, get, list_jobs, cancel,
}
use perf_loadgen.Distributed.Auth.{Request}
use perf_loadgen.Distributed.Master.{Network, check_workers}

-- The answers, in the order of the status codes 200, 202, 400, 404, 405, 409, 503. The listed jobs
-- are `none` where List panics.
pub data Reply : Type 0 where
  listed : Option (List JobInfo) → Reply
  shown : JobInfo → Reply
  job_cancelled : Text → Reply
  workers_checked : List WorkerState → Reply
  accepted : Text → Reply
  bad_spec no_workers missing_job_id addrs_required : Reply
  bad_config : ConfigError → Reply
  job_not_found method_not_allowed : Reply
  conflict : QueueError → Reply
  unavailable : QueueError → Reply

module _ (f : Floats) (u : Urls) where
  abbrev pub submit : Text → Time → JobSpec → JobQueue → Reply × JobQueue
  submit id now spec q = elim (enqueue id now spec q) [
    | err e ↦ (unavailable e, q)
    | ok r ↦ (accepted id, r)
  ]

  -- `handleJobs`; the body of a POST is decoded already, and `id` is the id that Enqueue makes.
  unfoldable pub handle_jobs : Request → Option JobSpec → Text → Time → JobQueue → Reply × JobQueue
  handle_jobs r body id now q = elim (r.method == codes "POST") [
    | true ↦ elim body [
      | none ↦ (bad_spec, q)
      | some spec ↦ elim (validate f u spec.config) [
        | some e ↦ (bad_config e, q)
        | none ↦ elim spec.workers [ [] ↦ (no_workers, q) | _ ∷ _ ↦ submit id now spec q ]
      ]
    ]
    | false ↦ if r.method == codes "GET" then (listed (list_jobs q), q) else (method_not_allowed, q)
  ]

-- `handleJobByID`: the answer, the queue, and the context that a cancelled job had.
abbrev cancel_reply :
    Text → JobQueue → Result QueueError (JobQueue × Option ℕ) → Reply × JobQueue × Option ℕ
cancel_reply id q (err e) = (conflict e, q, none)
cancel_reply id q (ok (r, ended)) = (job_cancelled id, r, ended)

abbrev show_reply : Option JobInfo → Reply
show_reply none = job_not_found
show_reply (some info) = shown info

unfoldable pub handle_job_by_id : Request → Time → JobQueue → Reply × JobQueue × Option ℕ
handle_job_by_id r now q =
    let id = trim_prefix r.path (codes "/api/jobs/") in
    if is_empty id
    then (missing_job_id, q, none)
    else if r.method == codes "GET"
    then (show_reply (get id q), q, none)
    else if r.method == codes "DELETE"
    then cancel_reply id q (cancel id now q)
    else (method_not_allowed, q, none)

-- `handleWorkers`, for the value of `addrs`; the error of the check is dropped.
unfoldable pub handle_workers : Network → Request → Text → Reply
handle_workers net r addrs =
    if r.method == codes "GET"
    then if is_empty (trim_space addrs)
      then addrs_required
      else workers_checked (check_workers net (split b',' (trim_space addrs))).0
    else method_not_allowed
