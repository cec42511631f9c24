-- ===== src/Examples/Runs.antt =====
-- Runs of internal/engine with an exporter of internal/output: three requests, one of which fails.
use perf_loadgen.Base.{
  ℕ, zero, suc, ◌*◌, ◌/◌, ◌<◌, ◌≡◌, refl, inl, true, false, List, [], ◌∷◌, none, some, map, arith,
  length, get_elem?, All, Text, codes, thousandths, Result, ok, err,
}
use perf_loadgen.Types.{RunResult, Summary, empty_result, category_none}
use perf_loadgen.Config.{Config, empty_config}
use perf_loadgen.Protocol.Httputil.{GoError, Outcome}
use perf_loadgen.Stats.Collector.{set_window, summary}
use perf_loadgen.Stats.Collector
use perf_loadgen.Stats.Collector.Counting.{add_all}
use perf_loadgen.Engine.Report.{run_detailed}
use perf_loadgen.Engine.RampUp.{worker_delays, worker_delays_lem}
use perf_loadgen.Engine.Settled.{Agrees, run_detailed-counts}
use perf_loadgen.Distributed.{WorkerResult}
use perf_loadgen.Distributed.Worker.Answer.{Part}
use perf_loadgen.Distributed.Master.Gather.{run}
use perf_loadgen.Distributed.Master.Totals.{PartAgrees, answered_by, run-counts}
use perf_loadgen.Output.Exporter.{PrometheusExporter, new_prometheus_exporter, scrape, exporting}
use perf_loadgen.Output.Exporter.Scrapes.{Event, observed, scraped, handle_all, run_detailed-scrape}

abbrev reset : GoError
reset = record {
  message = codes "reset";
  deadline_exceeded = false;
  refused = false;
  net_timeout = none;
}

abbrev quick : RunResult
quick = record empty_result { success = true; latency = 3_000_000; error_category = category_none }

abbrev outcomes : List Outcome
outcomes = (quick, none) ∷ (quick, some reset) ∷ (quick, none) ∷ []

outcomes-Agrees : All Agrees outcomes
outcomes-Agrees = (refl, (inl refl, (refl, tt)))

abbrev exporters : List PrometheusExporter
exporters = new_prometheus_exporter thousandths 5 ∷ []

abbrev cfg : Config
cfg = record empty_config { concurrency = 3; ramp_up = 10_000_000_000 }

run_detailed-counts_example :
    let r = (run_detailed thousandths (exporting thousandths) cfg 10 90 outcomes exporters).0 in
    ((r.summary.total_requests ≡ 3)
      × (r.summary.successful_requests ≡ 2)
      × (r.summary.failed_requests ≡ 1))
    × ((r.snapshot.total_requests ≡ 3)
        × (r.snapshot.successful_requests ≡ 2)
        × (r.snapshot.failed_requests ≡ 1))
run_detailed-counts_example =
    run_detailed-counts thousandths (exporting thousandths) cfg 10 90 outcomes exporters
      outcomes-Agrees (omega arith)

abbrev events : List Event
events = observed quick ∷ scraped 20 ∷ observed quick ∷ scraped 30 ∷ []

run_detailed-scrape_example :
    ((scrape thousandths 40
        (handle_all thousandths (new_prometheus_exporter thousandths 5) events)).0
      ≡ summary thousandths
          (set_window 5 40 (add_all thousandths (Collector.new thousandths) (quick ∷ quick ∷ []))))
    × (let (done, left) =
          run_detailed thousandths (exporting thousandths) cfg 10 90 outcomes exporters in
        map (λ e. (scrape thousandths 40 e).0) left ≡ done.summary ∷ [])
run_detailed-scrape_example =
    run_detailed-scrape thousandths 5 40 events cfg 10 90 outcomes exporters

worker_delays_lem_example :
    (length (worker_delays cfg) ≡ 3)
    × ((i : ℕ)
        → i < 3
        → (get_elem? (worker_delays cfg) i ≡ some (i * (10_000_000_000 / 3)))
          × (i * (10_000_000_000 / 3) < 10_000_000_000))
worker_delays_lem_example = worker_delays_lem cfg (omega arith) (omega arith) (omega arith)

-- The first worker answers, and so does the third; the second cannot be reached.
abbrev parts : ℕ → Result Text Part
parts zero = ok (record {
  config = cfg;
  started = 10;
  ended = 90;
  window_start = 11;
  window_end = 89;
  outcomes = outcomes;
})
parts (suc zero) = err (codes "refused")
parts (suc (suc i)) = ok (record {
  config = cfg;
  started = 12;
  ended = 80;
  window_start = 13;
  window_end = 79;
  outcomes = (quick, none) ∷ [];
})

parts-Agree : (i : ℕ) → PartAgrees (parts i)
parts-Agree zero = outcomes-Agrees
parts-Agree (suc zero) = tt
parts-Agree (suc (suc i)) = (refl, tt)

abbrev named : ℕ → Text
named i = codes "worker"

abbrev answers : ℕ → Result Text WorkerResult
answers i = answered_by thousandths named (codes "job") i (parts i)

run-counts_example :
    (s : Summary) × ((run thousandths named answers 0
        (codes "job")
        9
        95
        96
        (2 ∷ 1 ∷ 0 ∷ [])
        []).summary
      ≡ some s)
    × (s.total_requests ≡ 4)
    × (s.successful_requests ≡ 3)
    × (s.failed_requests ≡ 1)
run-counts_example =
    run-counts thousandths named (codes "job") named parts parts-Agree 0 9 95 96 (2 ∷ 1 ∷ 0 ∷ []) []
      (omega arith)
