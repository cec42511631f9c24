-- ===== src/Distributed/Master.antt =====
-- internal/distributed/master.go: splitting a run over workers, talking to them, and the job API.
-- HTTP exchanges, JSON and the context are parameters.
pub mod Totals
pub mod Cancel
pub mod Shards
pub mod Dispatch
pub mod Gather
pub mod Stream
pub mod Api
use perf_loadgen.Base.{
  ℕ, zero, suc, Bool, true, false, not, ◌&&◌, ◌||◌, List, [], ◌∷◌, ◌++◌, Option, none, some, ltb,
  leb, nat_beq, if◌then◌else◌, ◌==◌, length, Text, codes, text_eq, is_empty, trim_right, trim_space,
  trim_prefix, split, Int64, quot64, rem64, add64, lt64, is_pos64, le64, Time, Floats, Result, ok,
  err,
}
use perf_loadgen.Config.{Config, ConfigError, Urls, validate}
use perf_loadgen.Distributed.{
  JobRequest, WorkerResult, WorkerHealth, no_health, WorkerState, JobSpec, JobInfo,
}
use perf_loadgen.Distributed.Queue.{JobQueue, QueueError, enqueue, get, list_jobs, cancel}
use perf_loadgen.Distributed.Auth.{Request, sign_job}

-- `shardConfig`, for an index below the number of workers.
unfoldable pub shard_config : Config → ℕ → ℕ → Config
shard_config cfg index total = if leb total 1 || nat_beq cfg.requests 0 then cfg else record cfg {
  requests =
      if lt64 index (rem64 cfg.requests total)
      then add64 (quot64 cfg.requests total) 1
      else quot64 cfg.requests total;
}

-- A request that the master sends, and what comes of it.
pub record Outgoing : Type 0 where
  pub method : Text
  pub url : Text
  pub body : Text
  pub authorization : Text

pub record Answer : Type 0 where
  pub status_code : ℕ
  pub status : Text
  pub body : Text

-- `unbuilt` is an error of http.NewRequest, `unanswered` one of the exchange.
pub data Sent : Type 0 where
  unbuilt unanswered : Text → Sent
  answered : Answer → Sent

pub record Network : Type 0 where
  -- The exchange of an attempt, counted from 0.
  pub exchange : ℕ → Outgoing → Sent
  -- The error of the context after an attempt and the pause that follows it.
  pub cancelled : ℕ → Option Text
  pub encode_job : JobRequest → Result Text Text
  pub decode_result : Text → Result Text WorkerResult
  pub decode_health : Text → Result Text WorkerHealth
  pub hex_hmac : Text → Text → Text

abbrev pub endpoint : Text → Text → Text
endpoint address path = trim_right (λ c. nat_beq c b'/') address ++ path

abbrev pub bad_status : Answer → Text
bad_status a = a.status ++ codes ": " ++ trim_space a.body

pub data CheckError : Type 0 where
  not_healthy : Text → Text → CheckError
  full_worker : Text → Int64 → Int64 → CheckError

-- What one attempt of `dispatch` means.
pub data Verdict : Type 0 where
  stop retry : Text → Verdict
  success : WorkerResult → Verdict

abbrev no_state : Text → WorkerState
no_state address = record {
  worker_id = [];
  address = address;
  status = [];
  health = no_health;
  result = none;
  error = [];
}

-- `WorkerState{}` for each worker that was not reached.
abbrev pub empty_states : List Text → List WorkerState
empty_states [] = []
empty_states (a ∷ as_) = no_state [] ∷ empty_states as_

module _ (net : Network) where
  -- `healthCheck`.
  unfoldable pub health_check : Text → Result Text WorkerHealth
  health_check address =
      elim (net.exchange 0 (record {
        method = codes "GET";
        url = endpoint address (codes "/health");
        body = [];
        authorization = [];
      })) [
        | unbuilt e ↦ err e
        | unanswered e ↦ err e
        | answered a ↦
            if leb 300 a.status_code then err (bad_status a) else net.decode_health a.body
      ]

  -- The state of one worker and the error that ends the check, if any.
  unfoldable pub check_worker : Text → WorkerState × Option CheckError
  unfolding health_check
  check_worker address = elim (health_check address) [
    | err e ↦ (
      record (no_state address) { status = codes "unreachable"; error = e },
      some (not_healthy address e),
    )
    | ok h ↦
        if le64 h.capacity h.active_jobs && is_pos64 h.capacity
        then (
          record (no_state address) { worker_id = h.worker_id; status = codes "busy"; health = h },
          some (full_worker address h.active_jobs h.capacity),
        )
        else (
          record (no_state address) { worker_id = h.worker_id; status = h.status; health = h },
          none,
        )
  ]

  -- `CheckWorkers`: an error ends the loop, and the states of the workers after it stay empty.
  unfoldable pub check_workers : List Text → List WorkerState × Option CheckError
  unfolding check_worker
  check_workers [] = ([], none)
  check_workers (address ∷ addresses) =
      let (state, failed) = check_worker address in
      elim failed [
        | some e ↦ (state ∷ empty_states addresses, some e)
        | none ↦ let (states, e) = check_workers addresses in (state ∷ states, e)
      ]

  -- What the body of the loop of `dispatch` makes of an answer.
  unfoldable pub judge : Text → Sent → Verdict
  judge address (unbuilt e) = stop e
  judge address (unanswered e) = retry e
  judge address (answered a) =
      if leb 300 a.status_code
      then retry (codes "worker " ++ address ++ codes " returned " ++ bad_status a)
      else elim (net.decode_result a.body) [
        | err e ↦ retry e
        | ok r ↦
            if is_empty r.error
            then success r
            else retry (codes "worker " ++ address ++ codes " failed: " ++ r.error)
      ]

  unfoldable pub attempts : Text → Outgoing → ℕ → ℕ → Text → Result Text WorkerResult
  unfolding judge
  attempts address request zero attempt last = err last
  attempts address request (suc fuel) attempt last =
      elim (judge address (net.exchange attempt request)) [
        | stop e ↦ err e
        | success r ↦ ok r
        | retry e ↦ elim (net.cancelled attempt) [
          | some c ↦ err c
          | none ↦ attempts address request fuel (suc attempt) e
        ]
      ]

  abbrev pub run_request : Text → Text → Text → Text → Outgoing
  run_request address secret job_id payload = record {
    method = codes "POST";
    url = endpoint address (codes "/run");
    body = payload;
    authorization = sign_job net.hex_hmac job_id secret;
  }

  -- `dispatch`: three attempts at most.
  unfoldable pub dispatch : Text → Text → JobRequest → Result Text WorkerResult
  unfolding attempts
  dispatch secret address job = elim (net.encode_job job) [
    | err e ↦ err e
    | ok payload ↦ attempts address (run_request address secret job.job_id payload) 3 0 []
  ]
