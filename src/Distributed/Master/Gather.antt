-- ===== src/Distributed/Master/Gather.antt =====
-- internal/distributed/master.go, Run: the workers' results, gathered in the order in which they
-- arrive under the state's lock.
pub mod Outcome
use mathlib.Core.Path.{subst}
use mathlib.Core.List.{flatten}
use perf_loadgen.Base.{
  ℕ, zero, suc, ◌<◌, ◌≡◌, ◌≢◌, refl, sym, ap, ◌∙◌, ◌⊎◌, inl, inr, Bool, true, false, ◌||◌, List, [],
  ◌∷◌, map, Option, none, some, arith, length, get_elem?, get_or, set, All, Bool-cases,
  if◌then◌else◌, ◌==◌, nat_eq, nat_beq, map_some, Text, codes, text_eq, Time, Floats, two64, Result,
  ok, err,
}
use perf_loadgen.Types.{RunResult}
use perf_loadgen.Stats.Collector.{Collector, merge, snapshot, set_window, set_pricing, summary}
use perf_loadgen.Stats.Collector
use perf_loadgen.Stats.Collector.Agreement.{Agree}
use perf_loadgen.Stats.Collector.Distributed.{
  collected, merge_workers, merge_workers-collected, Countable,
}
use perf_loadgen.Distributed.{WorkerResult, WorkerState, DashboardState, no_health}

-- What the goroutine of a worker makes of its state: `state.WorkerID` and `state.Result` stay as
-- they are on an error, and `state.Error` on success.
unfoldable pub settle : Text → Result Text WorkerResult → WorkerState → WorkerState
settle address (err e) s = record s { address = address; status = codes "failed"; error = e }
settle address (ok r) s = record s {
  address = address;
  worker_id = r.worker_id;
  status = codes "completed";
  result = some r;
}

abbrev pub no_worker : WorkerState
no_worker = record {
  worker_id = [];
  address = [];
  status = [];
  health = no_health;
  result = none;
  error = [];
}

-- The final status.
unfoldable pub final_status : List WorkerState → Text
final_status [] = codes "completed"
final_status (s ∷ states) =
    if s.status == codes "failed" then codes "completed_with_errors" else final_status states

module _ (f : Floats) (address : ℕ → Text) (outcome : ℕ → Result Text WorkerResult) where
  unfoldable pub collect : Result Text WorkerResult → Collector → Collector
  collect (err e) c = c
  collect (ok r) c = merge f c r.snapshot

  -- The goroutines' critical sections, in the order in which they get the lock.
  unfoldable pub gather : List ℕ → List WorkerState × Collector → List WorkerState × Collector
  unfolding settle collect
  gather [] (states, c) = (states, c)
  gather (i ∷ order) (states, c) = gather order (
    set states i (settle (address i) (outcome i) (get_or states i no_worker)),
    collect (outcome i) c,
  )

  abbrev pub starting : ℕ → Collector
  starting price =
      if f.flt (f.lit 0 1) price then set_pricing price (Collector.new f) else Collector.new f

  -- `Run`, with the times at which the window and the run end, after the workers were checked, whose states are `checked`.
  unfoldable pub run : ℕ → Text → Time → Time → Time → List ℕ → List WorkerState → DashboardState
  unfolding gather final_status
  run price job_id started ended completed order checked =
      let (states, c) = gather order (checked, starting price) in
      record {
        job_id = job_id;
        status = final_status states;
        started = started;
        completed = completed;
        summary = some (summary f (set_window started ended c));
        workers = states;
        worker_count = length states;
      }
