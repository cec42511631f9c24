-- ===== src/Distributed/Worker/Answer.antt =====
-- internal/distributed/worker.go, handleRun: the run of an accepted job and the answer to the master.
use perf_loadgen.Base.{List, [], Text, Floats, Time}
use perf_loadgen.Config.{Config}
use perf_loadgen.Protocol.Httputil.{Outcome}
use perf_loadgen.Engine.Report.{Observer, run_detailed}
use perf_loadgen.Distributed.{WorkerResult}

-- A worker's engine has no observers.
abbrev pub nobody : Observer Text
nobody = record { observe = λ s r. s; finalize = λ s summary. s }

-- What one worker does: the times of the job and of the window of its run, and the outcomes of the
-- requests whose results were sent.
pub record Part : Type 0 where
  pub config : Config
  pub started : Time
  pub ended : Time
  pub window_start : Time
  pub window_end : Time
  pub outcomes : List Outcome

-- The answer after a run that is not refused; RunDetailed returns no error.
unfoldable pub worker_result : Floats → Text → Text → Part → WorkerResult
worker_result f id job_id p =
    let report = (run_detailed f nobody p.config p.window_start p.window_end p.outcomes []).0 in
    record {
      worker_id = id;
      job_id = job_id;
      started = p.started;
      ended = p.ended;
      snapshot = report.snapshot;
      summary = report.summary;
      error = [];
    }
