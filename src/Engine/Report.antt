-- ===== src/Engine/Report.antt =====
-- internal/engine/engine.go: what RunDetailed makes of the outcomes of the requests.
use perf_loadgen.Base.{
  Bool, false, not, ◌&&◌, List, [], ◌∷◌, none, some, map, ◌==◌, text_eq, if◌then◌else◌, Text, lt64,
  Floats, Time, millisecond,
}
use perf_loadgen.Types.{
  RequestSpec, RunResult, category_none, category_unknown, AggregateSnapshot, Summary,
}
use perf_loadgen.Config.{Config}
use perf_loadgen.Protocol.Httputil.{Outcome}
use perf_loadgen.Stats.Collector.{Collector, set_pricing, set_window, add, snapshot, summary}
use perf_loadgen.Stats.Collector

-- `requestTemplate` with the body that the picker chose.
unfoldable pub request_for : Config → Text → RequestSpec
request_for cfg body = record {
  url = cfg.url;
  method = cfg.method;
  headers = cfg.headers;
  body = body;
  timeout = cfg.timeout;
}

-- A result that arrives with an error and without a category becomes a failure.
unfoldable pub settle : Outcome → RunResult
settle (r, none) = r
settle (r, some e) =
    if r.error_category == category_none
    then record r { success = false; error_category = category_unknown; error_message = e.message }
    else r

-- Whether the worker pauses after the result.
unfoldable pub pauses : RunResult → Bool
pauses r = not r.success && lt64 r.latency millisecond

-- The interface of the observers, whose states are `S`.
pub record Observer (S : Type 0) : Type 0 where
  pub observe : S → RunResult → S
  pub finalize : S → Summary → S

pub record RunReport : Type 0 where
  pub summary : Summary
  pub snapshot : AggregateSnapshot

unfoldable pub new_collector : Floats → Config → Collector
new_collector f cfg =
    if f.flt (f.lit 0 1) cfg.model_price_per_1k
    then set_pricing cfg.model_price_per_1k (Collector.new f)
    else Collector.new f

module _ {S : Type 0} (f : Floats) (observer : Observer S) where
  -- The loop over the channel, for the results in the order in which they were sent.
  unfoldable pub collect : Collector → List S → List RunResult → Collector × List S
  collect c observers [] = (c, observers)
  collect c observers (r ∷ rs) = collect (add f c r) (map (λ s. observer.observe s r) observers) rs

  -- `finished` is the collector with its window set.
  unfoldable pub report : Collector → List S → RunReport × List S
  report finished observers = (
    record { summary = summary f finished; snapshot = snapshot finished },
    map (λ s. observer.finalize s (summary f finished)) observers,
  )

  -- RunDetailed, for the outcomes of the requests whose results were sent, and the times at which
  -- it starts and ends.
  unfoldable pub run_detailed : Config → Time → Time → List Outcome → List S → RunReport × List S
  unfolding collect report
  run_detailed cfg start end_ outcomes observers =
      let (c, seen) = collect (new_collector f cfg) observers (map settle outcomes) in
      report (set_window start end_ c) seen
