-- ===== src/Output/Exporter/Scrapes.antt =====
-- internal/output/prometheus.go: what a scrape sees, in any interleaving with a run.
use perf_loadgen.Base.{◌≡◌, refl, sym, ◌∙◌, ap, false, List, [], ◌∷◌, none, map, Floats, Time}
use mathlib.Core.Path.{ap₂}
use perf_loadgen.Types.{RunResult, Summary}
use perf_loadgen.Config.{Config}
use perf_loadgen.Protocol.Httputil.{Outcome}
use perf_loadgen.Stats.Collector.{Collector, add, set_window, summary}
use perf_loadgen.Stats.Collector.Counting.{add_all}
use perf_loadgen.Stats.Collector
use perf_loadgen.Engine.Report.{settle, new_collector, collect, report, run_detailed}
use perf_loadgen.Output.Exporter.{
  PrometheusExporter, finalize, new_prometheus_exporter, observe, current_summary, scrape,
  exporting,
}

-- The calls that take the exporter's lock while the run goes on.
pub data Event : Type 0 where
  observed : RunResult → Event
  scraped : Time → Event

abbrev pub results_of : List Event → List RunResult
results_of [] = []
results_of (observed r ∷ es) = r ∷ results_of es
results_of (scraped now ∷ es) = results_of es

module _ (f : Floats) where
  abbrev pub handle : PrometheusExporter → Event → PrometheusExporter
  handle e (observed r) = observe f e r
  handle e (scraped now) = (scrape f now e).1

  unfoldable pub handle_all : PrometheusExporter → List Event → PrometheusExporter
  handle_all e [] = e
  handle_all e (event ∷ events) = handle_all (handle e event) events

  add-set_window :
      (s t : Time) (c : Collector) (r : RunResult)
      → add f (set_window s t c) r ≡ set_window s t (add f c r)
  unfolding add set_window
  add-set_window s t c r = refl

  -- An exporter that is not finalized and has added what `c` has, whatever its window.
  record IsLive (start : Time) (c : Collector) (e : PrometheusExporter) : Type 0 where
    started : e.start_time ≡ start
    open_ : e.final ≡ none
    running : e.is_final ≡ false
    collected : (s t : Time) → set_window s t e.collector ≡ set_window s t c

  observe-IsLive :
      (start : Time) (c : Collector) (e : PrometheusExporter) (r : RunResult)
      → IsLive start c e
      → IsLive start (add f c r) (observe f e r)
  unfolding observe
  observe-IsLive start c e r v = record {
    started = v.started;
    open_ = v.open_;
    running = v.running;
    collected = λ s t.
        sym (add-set_window s t e.collector r)
        ∙ ap (λ d. add f d r) (v.collected s t)
        ∙ add-set_window s t c r;
  }

  scrape-IsLive :
      (start now : Time) (c : Collector) (e : PrometheusExporter)
      → IsLive start c e
      → ((scrape f now e).0 ≡ summary f (set_window start now c))
        × IsLive start c (scrape f now e).1
  unfolding scrape current_summary set_window
  scrape-IsLive start now c e v = rw v.running (
    (rw (v.open_, v.started) (ap (summary f) (v.collected start now))),
    record { started = v.started; open_ = v.open_; running = refl; collected = v.collected },
  )

  handle_all-IsLive :
      (start : Time) (c : Collector) (e : PrometheusExporter) (events : List Event)
      → IsLive start c e
      → IsLive start (add_all f c (results_of events)) (handle_all e events)
  unfolding handle_all add_all
  handle_all-IsLive start c e [] v = v
  handle_all-IsLive start c e (observed r ∷ events) v =
      handle_all-IsLive start (add f c r) (observe f e r) events (observe-IsLive start c e r v)
  handle_all-IsLive start c e (scraped now ∷ events) v =
      handle_all-IsLive start c (scrape f now e).1 events (scrape-IsLive start now c e v).1

  new-IsLive : (start : Time) → IsLive start (Collector.new f) (new_prometheus_exporter f start)
  unfolding new_prometheus_exporter
  new-IsLive start = record {
    started = refl;
    open_ = refl;
    running = refl;
    collected = λ s t. refl;
  }

  scrape-finalized :
      (now : Time) (e : PrometheusExporter) (s : Summary) → (scrape f now (finalize e s)).0 ≡ s
  unfolding scrape finalize current_summary
  scrape-finalized now e s = refl

  scrapes-finalized :
      (now : Time) (s : Summary) (es : List PrometheusExporter)
      → map (λ e. (scrape f now e).0) (map (λ e. finalize e s) es) ≡ map (λ _. s) es
  scrapes-finalized now s [] = refl
  scrapes-finalized now s (e ∷ es) = ap₂ ◌∷◌ (scrape-finalized now e s) (scrapes-finalized now s es)

  map-const :
      (g : PrometheusExporter → PrometheusExporter) (s : Summary) (es : List PrometheusExporter)
      → map (λ _. s) (map g es) ≡ map (λ _. s) es
  map-const g s [] = refl
  map-const g s (e ∷ es) = ap (λ rest. s ∷ rest) (map-const g s es)

  collect-const :
      (s : Summary) (c : Collector) (es : List PrometheusExporter) (rs : List RunResult)
      → map (λ _. s) (collect f (exporting f) c es rs).1 ≡ map (λ _. s) es
  unfolding collect
  collect-const s c es [] = refl
  collect-const s c es (r ∷ rs) =
      collect-const s (add f c r) (map (λ e. observe f e r) es) rs
      ∙ map-const (λ e. observe f e r) s es

  run_detailed-finalized :
      (now : Time) (cfg : Config) (begin end_ : Time) (os : List Outcome)
      (es : List PrometheusExporter)
      → let (done, left) = run_detailed f (exporting f) cfg begin end_ os es in
        map (λ e. (scrape f now e).0) left ≡ map (λ _. done.summary) es
  unfolding run_detailed report
  run_detailed-finalized now cfg begin end_ os es =
      scrapes-finalized now _ _ ∙ collect-const _ (new_collector f cfg) es (map settle os)

  -- A scrape while a run goes on, after any results and any scrapes, gives the summary of the results
  -- so far, in a window from the exporter's start to the scrape; and each scrape after a run that the
  -- engine reports to its exporters gives the summary of the run's report.
  pub run_detailed-scrape :
      (start now : Time) (events : List Event) (cfg : Config) (begin end_ : Time)
      (os : List Outcome) (es : List PrometheusExporter)
      → ((scrape f now (handle_all (new_prometheus_exporter f start) events)).0
          ≡ summary f (set_window start now (add_all f (Collector.new f) (results_of events))))
        × (let (done, left) = run_detailed f (exporting f) cfg begin end_ os es in
            map (λ e. (scrape f now e).0) left ≡ map (λ _. done.summary) es)
  run_detailed-scrape start now events cfg begin end_ os es =
      let live =
        handle_all-IsLive start (Collector.new f) (new_prometheus_exporter f start) events
          (new-IsLive start) in
      (
        (scrape-IsLive start now (add_all f (Collector.new f) (results_of events))
            (handle_all (new_prometheus_exporter f start) events) live).0,
        run_detailed-finalized now cfg begin end_ os es,
      )
