-- ===== src/Distributed/Worker.antt =====
-- internal/distributed/worker.go: the worker's jobs and its handlers. What a handler does under the
-- lock is a function on the state; contexts are numbers, and the run itself is a parameter.
pub mod Answer
pub mod Capacity
pub mod Repeats
use perf_loadgen.Base.{
  ℕ, Bool, true, false, not, List, [], ◌∷◌, map, Option, none, some, ltb, leb, if◌then◌else◌, ◌==◌,
  length, Text, codes, text_eq, is_empty, trim_prefix, Int64, is_pos64, Floats, Time, lookup, put,
  delete, keys, Result, ok, err,
}
use perf_loadgen.Types.{AggregateSnapshot, Summary}
use perf_loadgen.Config.{Config, ConfigError, Urls, validate}
use perf_loadgen.Distributed.{JobRequest, WorkerHealth}
use perf_loadgen.Distributed.Auth.{Request, verify_job}

-- `jobs` maps a job's id to the context that its cancel function ends.
pub record Worker : Type 0 where
  pub id : Text
  pub listen_addr : Text
  pub capacity : Int64
  pub secret : Text
  pub jobs : List (Text × ℕ)
  pub last_job_id : Text
  pub last_seen : Time

-- `NewWorker`.
unfoldable pub new : Text → Text → Int64 → Text → Time → Worker
new id listen_addr capacity secret now = record {
  id = id;
  listen_addr = listen_addr;
  capacity = if is_pos64 capacity then capacity else 1;
  secret = secret;
  jobs = [];
  last_job_id = [];
  last_seen = now;
}

unfoldable pub worker_status : ℕ → Int64 → Text
worker_status active capacity =
    if leb capacity active
    then codes "busy"
    else if ltb 0 active
    then codes "running"
    else codes "ready"

abbrev pub head_or_empty : List Text → Text
head_or_empty [] = []
head_or_empty (id ∷ ids) = id

-- `handleHealth`; the job ids come in the order of the map.
unfoldable pub health : Worker → WorkerHealth
unfolding worker_status
health w = record {
  worker_id = w.id;
  status = worker_status (length w.jobs) w.capacity;
  busy = leb w.capacity (length w.jobs);
  current_job_id = head_or_empty (keys w.jobs);
  last_job_id = w.last_job_id;
  last_seen = w.last_seen;
  listen_addr = w.listen_addr;
  capacity = w.capacity;
  active_jobs = length w.jobs;
  job_ids = keys w.jobs;
}

-- The answers that refuse a request.
pub data Refusal : Type 0 where
  method_not_allowed bad_payload unauthorized missing_job_id job_not_found : Refusal
  bad_config : ConfigError → Refusal
  at_capacity : List Text → Refusal

-- The part of `handleRun` under the first lock: a place for the job, or the ids that hold the places.
unfoldable pub accept : Text → ℕ → Worker → Result Refusal Worker
accept job_id ctx w =
    if leb w.capacity (length w.jobs)
    then err (at_capacity (keys w.jobs))
    else ok (record w { jobs = put job_id ctx w.jobs })

-- After `BuildRunner` failed.
unfoldable pub give_up : Text → Time → Worker → Worker
give_up job_id now w = record w { jobs = delete job_id w.jobs; last_seen = now }

-- After the run.
unfoldable pub finish : Text → Time → Worker → Worker
finish job_id ended w = record w {
  jobs = delete job_id w.jobs;
  last_job_id = job_id;
  last_seen = ended;
}

module _ (hex_hmac : Text → Text → Text) (f : Floats) (u : Urls) where
  abbrev pub or_bad_config : Option ConfigError → Result Refusal Worker → Result Refusal Worker
  or_bad_config none rest = rest
  or_bad_config (some e) rest = err (bad_config e)

  -- `handleRun` up to the run: the body is decoded already, `none` where that failed.
  unfoldable pub handle_run : Request → Option JobRequest → ℕ → Worker → Result Refusal Worker
  unfolding accept
  handle_run r body ctx w = elim (r.method == codes "POST") [
    | false ↦ err method_not_allowed
    | true ↦ elim body [
      | none ↦ err bad_payload
      | some job ↦ or_bad_config (validate f u job.config) (
          if verify_job hex_hmac r job.job_id w.secret
          then accept job.job_id ctx w
          else err unauthorized)
    ]
  ]

-- `handleCancel`: the context that is ended.
unfoldable pub handle_cancel : Request → Worker → Result Refusal ℕ
handle_cancel r w = elim (r.method == codes "POST") [
  | false ↦ err method_not_allowed
  | true ↦ elim (is_empty (trim_prefix r.path (codes "/cancel/"))) [
    | true ↦ err missing_job_id
    | false ↦ elim (lookup (trim_prefix r.path (codes "/cancel/")) w.jobs) [
      | none ↦ err job_not_found
      | some ctx ↦ ok ctx
    ]
  ]
]

abbrev pub is_some : {A : Type 0} → Option A → Bool
is_some none = false
is_some (some a) = true

unfoldable pub job_status : Text → Worker → Text
job_status id w =
    if is_some (lookup id w.jobs)
    then codes "running"
    else if w.last_job_id == id
    then codes "completed"
    else codes "not_found"

-- `handleStatus`.
unfoldable pub handle_status : Request → Worker → Result Refusal Text
unfolding job_status
handle_status r w =
    if is_empty (trim_prefix r.path (codes "/status/"))
    then err missing_job_id
    else ok (job_status (trim_prefix r.path (codes "/status/")) w)

-- `Shutdown`: the worker and the contexts that it ends.
unfoldable pub shutdown : Worker → Worker × List ℕ
shutdown w = (record w { capacity = 0 }, map (λ e. e.1) w.jobs)
