-- ===== src/Distributed.antt =====
-- internal/distributed: the messages between master and workers, and the job queue.
pub mod Auth
pub mod Queue
pub mod Worker
pub mod Master
use perf_loadgen.Base.{Bool, false, List, [], Option, Text, codes, Int64, Time}
use perf_loadgen.Types.{AggregateSnapshot, Summary}
use perf_loadgen.Config.{Config}

pub record JobRequest : Type 0 where
  pub job_id : Text
  pub config : Config

pub record WorkerResult : Type 0 where
  pub worker_id : Text
  pub job_id : Text
  pub started : Time
  pub ended : Time
  pub snapshot : AggregateSnapshot
  pub summary : Summary
  pub error : Text

pub record WorkerHealth : Type 0 where
  pub worker_id : Text
  pub status : Text
  pub busy : Bool
  pub current_job_id : Text
  pub last_job_id : Text
  pub last_seen : Time
  pub listen_addr : Text
  pub capacity : Int64
  pub active_jobs : Int64
  pub job_ids : List Text

abbrev pub no_health : WorkerHealth
no_health = record {
  worker_id = [];
  status = [];
  busy = false;
  current_job_id = [];
  last_job_id = [];
  last_seen = 0;
  listen_addr = [];
  capacity = 0;
  active_jobs = 0;
  job_ids = [];
}

-- `Result` is there once the worker has answered.
pub record WorkerState : Type 0 where
  pub worker_id : Text
  pub address : Text
  pub status : Text
  pub health : WorkerHealth
  pub result : Option WorkerResult
  pub error : Text

-- `Summary` is there once one has been computed.
pub record DashboardState : Type 0 where
  pub job_id : Text
  pub status : Text
  pub started : Time
  pub completed : Time
  pub summary : Option Summary
  pub workers : List WorkerState
  pub worker_count : Int64

pub data JobStatus : Type 0 where
  pending running completed failed cancelled : JobStatus

pub record JobSpec : Type 0 where
  pub config : Config
  pub workers : List Text

pub record JobInfo : Type 0 where
  pub id : Text
  pub status : JobStatus
  pub workers : List Text
  pub created_at : Time
  pub started_at : Time
  pub ended_at : Time
  pub result : Option DashboardState
  pub error : Text
  -- `some` where the pointer to the summary is set; the inner `none` is a zero summary.
  pub summary : Option (Option Summary)
