-- ===== src/Output/Exporter.antt =====
-- internal/output/prometheus.go: what the exporter keeps of a run, without its server and its text.
pub mod Scrapes
use perf_loadgen.Base.{Bool, true, false, Option, none, some, Floats, Time, if◌then◌else◌}
use perf_loadgen.Types.{RunResult, Summary}
use perf_loadgen.Stats.Collector.{Collector, add, set_window, summary}
use perf_loadgen.Stats.Collector
use perf_loadgen.Engine.Report.{Observer}

pub record PrometheusExporter : Type 0 where
  pub start_time : Time
  pub collector : Collector
  pub final : Option Summary
  pub is_final : Bool

-- `Finalize`.
unfoldable pub finalize : PrometheusExporter → Summary → PrometheusExporter
finalize e s = record e { final = some s; is_final = true }

module _ (f : Floats) where
  unfoldable pub new_prometheus_exporter : Time → PrometheusExporter
  new_prometheus_exporter now = record {
    start_time = now;
    collector = Collector.new f;
    final = none;
    is_final = false;
  }

  unfoldable pub observe : PrometheusExporter → RunResult → PrometheusExporter
  observe e r = record e { collector = add f e.collector r }

  -- `currentSummaryLocked`.
  unfoldable pub current_summary : PrometheusExporter → Summary
  current_summary e = elim e.final [ some s ↦ s | none ↦ summary f e.collector ]

  -- The part of `ServeHTTP` under the lock: the summary that the text is written from.
  unfoldable pub scrape : Time → PrometheusExporter → Summary × PrometheusExporter
  unfolding current_summary
  scrape now e =
      let windowed =
        if e.is_final
        then e
        else record e { collector = set_window e.start_time now e.collector } in
      (current_summary windowed, windowed)

  -- As an observer of the engine.
  abbrev pub exporting : Observer PrometheusExporter
  exporting = record { observe = observe; finalize = finalize }
