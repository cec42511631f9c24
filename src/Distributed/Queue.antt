-- ===== src/Distributed/Queue.antt =====
-- internal/distributed/queue.go: the master's job queue. Every operation holds the queue's lock, so
-- it is a function on the state; the clock and the formatted time stamp are arguments.
pub mod Order
pub mod Fifo
pub mod Lifecycle
pub mod Invariant
pub mod Wakeup
use perf_loadgen.Base.{
  ℕ, ◌+◌, ◌-◌, Bool, true, false, not, ◌&&◌, ◌||◌, List, [], ◌∷◌, ◌++◌, map, Option, none, some,
  leb, length, if◌then◌else◌, Text, codes, text_eq, Int64, two63, Time, lookup, put, modify, Result,
  ok, err,
}
use perf_loadgen.Types.{Summary}
use perf_loadgen.Distributed.{
  DashboardState, JobStatus, pending, running, completed, failed, cancelled, JobSpec, JobInfo,
}

-- `cancel` names the context that the cancel function ends; `none` is nil. `result` is `none` for
-- the zero value.
pub record QueuedJob : Type 0 where
  pub id : Text
  pub spec : JobSpec
  pub status : JobStatus
  pub created_at : Time
  pub started_at : Time
  pub ended_at : Time
  pub result : Option DashboardState
  pub error : Text
  pub cancel : Option ℕ

-- `signal` is true while the channel `notEmpty`, of capacity one, holds a token.
pub record JobQueue : Type 0 where
  pub jobs : List (Text × QueuedJob)
  pub order : List Text
  pub max_jobs : ℕ
  pub signal : Bool

-- `NewJobQueue`, for an int given as a bit pattern.
unfoldable pub new : Int64 → JobQueue
new max_jobs = record {
  jobs = [];
  order = [];
  max_jobs = if leb 1 max_jobs && leb max_jobs (two63 - 1) then max_jobs else 100;
  signal = false;
}

abbrev pub is_pending : JobStatus → Bool
is_pending pending = true
is_pending _ = false

abbrev pub is_cancelled : JobStatus → Bool
is_cancelled cancelled = true
is_cancelled _ = false

abbrev pub is_terminal : JobStatus → Bool
is_terminal completed = true
is_terminal failed = true
is_terminal cancelled = true
is_terminal _ = false

pub data QueueError : Type 0 where
  queue_full : ℕ → ℕ → QueueError
  job_not_found : Text → QueueError
  already_terminal : Text → JobStatus → QueueError

-- `Enqueue`: `id` is the formatted time stamp. The token is sent unless one is there already.
abbrev pub pending_job : Text → JobSpec → Time → QueuedJob
pending_job id spec now = record {
  id = id;
  spec = spec;
  status = pending;
  created_at = now;
  started_at = 0;
  ended_at = 0;
  result = none;
  error = [];
  cancel = none;
}

unfoldable pub enqueue : Text → Time → JobSpec → JobQueue → Result QueueError JobQueue
enqueue id now spec q =
    if leb q.max_jobs (length q.jobs)
    then err (queue_full (length q.jobs) q.max_jobs)
    else ok (record q {
      jobs = put id (pending_job id spec now) q.jobs;
      order = q.order ++ id ∷ [];
      signal = true;
    })

-- What one pass of `Dequeue` over the order finds; `nil_job` is the panic on a missing job.
pub data Scan : Type 0 where
  hit : Text → QueuedJob → Scan
  none_pending nil_job : Scan

unfoldable pub scan : List (Text × QueuedJob) → List Text → Scan
scan jobs [] = none_pending
scan jobs (id ∷ ids) = elim (lookup id jobs) [
  | none ↦ nil_job
  | some j ↦ elim (is_pending j.status) [ true ↦ hit id j | false ↦ scan jobs ids ]
]

abbrev pub start_job : Time → ℕ → QueuedJob → QueuedJob
start_job now ctx j = record j { status = running; started_at = now; cancel = some ctx }

-- A pass under the lock: the job that was taken and the new queue.
unfoldable pub take_pending : Time → ℕ → JobQueue → Option (QueuedJob × JobQueue)
take_pending now ctx q = elim (scan q.jobs q.order) [
  | hit id j ↦ some (start_job now ctx j, record q { jobs = modify id (start_job now ctx) q.jobs })
  | none_pending ↦ none
  | nil_job ↦ none
]

abbrev pub complete_job : Time → DashboardState → QueuedJob → QueuedJob
complete_job now result j =
    if is_cancelled j.status
    then j
    else record j { status = completed; ended_at = now; result = some result }

unfoldable pub complete : Text → Time → DashboardState → JobQueue → JobQueue
complete id now result q = record q { jobs = modify id (complete_job now result) q.jobs }

abbrev pub fail_job : Time → Text → QueuedJob → QueuedJob
fail_job now error j =
    if is_cancelled j.status then j else record j { status = failed; ended_at = now; error = error }

unfoldable pub fail : Text → Time → Text → JobQueue → JobQueue
fail id now error q = record q { jobs = modify id (fail_job now error) q.jobs }

abbrev pub cancel_job : Time → QueuedJob → QueuedJob
cancel_job now j = record j { status = cancelled; ended_at = now }

-- `Cancel`: the new queue, and the context that was ended, if the job had one.
unfoldable pub cancel : Text → Time → JobQueue → Result QueueError (JobQueue × Option ℕ)
cancel id now q = elim (lookup id q.jobs) [
  | none ↦ err (job_not_found id)
  | some j ↦
      if is_terminal j.status
      then err (already_terminal id j.status)
      else ok (record q { jobs = modify id (cancel_job now) q.jobs }, j.cancel)
]

abbrev pub result_summary : Option DashboardState → Option Summary
result_summary none = none
result_summary (some d) = d.summary

unfoldable pub to_job_info : QueuedJob → JobInfo
to_job_info j = record {
  id = j.id;
  status = j.status;
  workers = j.spec.workers;
  created_at = j.created_at;
  started_at = j.started_at;
  ended_at = j.ended_at;
  result = j.result;
  error = j.error;
  summary = elim j.status [
    | completed ↦ some (result_summary j.result)
    | failed ↦ some (result_summary j.result)
    | _ ↦ none
  ];
}

-- `Get`.
unfoldable pub get : Text → JobQueue → Option JobInfo
unfolding to_job_info
get id q = elim (lookup id q.jobs) [ none ↦ none | some j ↦ some (to_job_info j) ]

-- `List`; `none` is the panic on a missing job.
unfoldable pub list_from : List (Text × QueuedJob) → List Text → Option (List JobInfo)
unfolding to_job_info
list_from jobs [] = some []
list_from jobs (id ∷ ids) = elim (lookup id jobs) [
  | none ↦ none
  | some j ↦ elim (list_from jobs ids) [ none ↦ none | some rest ↦ some (to_job_info j ∷ rest) ]
]

unfoldable pub list_jobs : JobQueue → Option (List JobInfo)
unfolding list_from
list_jobs q = list_from q.jobs q.order
