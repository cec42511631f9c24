-- ===== src/Examples/Statistics.antt =====
-- Runs of internal/stats on small histograms and few results.
use perf_loadgen.Base.{◌≤◌, ◌≡◌, refl, true, List, [], ◌∷◌, arith, All, Duration, thousandths}
use mathlib.Core.List.{flatten}
use perf_loadgen.Types.{RunResult, empty_result, category_none, category_timeout}
use perf_loadgen.Stats.Histogram.{Histogram, snapshot, total, record_latency, quantile}
use perf_loadgen.Stats.Histogram
use perf_loadgen.Stats.Histogram.Record.{IsShaped, here, there}
use perf_loadgen.Stats.Histogram.Merging.{record_all, cleared, merge-record_all}
use perf_loadgen.Stats.Histogram.Quantiles.{AreSorted, Fits, count_le, recorded}
use perf_loadgen.Stats.Histogram.Percentile.{rank, IsFraction, IsShort, quantile-least}
use perf_loadgen.Stats.Collector.{summary}
use perf_loadgen.Stats.Collector
use perf_loadgen.Stats.Collector.Counting.{add_all, Counts}
use perf_loadgen.Stats.Collector.Tallies.{Tallies, add_all-Tallies}
use perf_loadgen.Stats.Collector.Extremes.{Reports, summary-extremes}
use perf_loadgen.Stats.Collector.Agreement.{Agree}
use perf_loadgen.Stats.Collector.Distributed.{collected, merge_workers, merge_workers-collected}

abbrev small_bounds : List Duration
small_bounds = 10 ∷ 20 ∷ 40 ∷ []

abbrev small : Histogram
small = record { bounds = small_bounds; counts = 0 ∷ 3 ∷ 1 ∷ [] }

small-IsShaped : IsShaped small
small-IsShaped = record { inhabited = omega arith; paired = refl }

abbrev samples : List Duration
samples = 5 ∷ 15 ∷ 18 ∷ 33 ∷ []

merge-record_all_example :
    Histogram.merge small (snapshot (record_all (cleared small) samples)) ≡ record_all small samples
merge-record_all_example =
    merge-record_all small samples small-IsShaped (omega arith, (omega arith, (omega arith, tt)))

small-AreSorted : AreSorted small_bounds
small-AreSorted = ((refl, (refl, tt)), ((refl, tt), (tt, tt)))

samples-Fits : All (Fits small_bounds) samples
samples-Fits = (
  (0, here refl),
  (
    (1, there refl (here refl)),
    ((1, there refl (here refl)), ((2, there refl (there refl (here refl))), tt)),
  ),
)

half-IsFraction : IsFraction thousandths 500 4
half-IsFraction = record {
  above_zero = refl;
  below_one = refl;
  positive = ground arith;
  within = ground arith;
}

most-IsFraction : IsFraction thousandths 950 4
most-IsFraction = record {
  above_zero = refl;
  below_one = refl;
  positive = ground arith;
  within = ground arith;
}

quantile-least_example :
    (rank thousandths 4 500
      ≤ count_le (quantile thousandths (recorded small_bounds samples) 500) samples)
    × All
        (IsShort thousandths small_bounds samples small-AreSorted
          (omega arith)
          samples-Fits
          (rank thousandths 4 500)
          (quantile thousandths (recorded small_bounds samples) 500))
        small_bounds
quantile-least_example =
    quantile-least thousandths small_bounds samples small-AreSorted (omega arith) samples-Fits 500
      (omega arith) half-IsFraction

abbrev served : RunResult
served = record empty_result {
  success = true;
  latency = 12_000;
  status_code = 200;
  error_category = category_none;
  ttft = 5000;
  output_tokens = 7;
  itl_samples = 900 ∷ 1100 ∷ [];
}

abbrev timed_out : RunResult
timed_out = record empty_result { latency = 90_000; error_category = category_timeout }

add_all-Tallies_example :
    Counts 2 (add_all thousandths (Collector.new thousandths) (served ∷ timed_out ∷ []))
    × Tallies
        (served ∷ timed_out ∷ [])
        (Collector.new thousandths)
        (add_all thousandths (Collector.new thousandths) (served ∷ timed_out ∷ []))
add_all-Tallies_example =
    add_all-Tallies thousandths (served ∷ timed_out ∷ []) (omega arith) (omega arith)

summary-extremes_example :
    let s =
      summary thousandths
        (add_all thousandths (Collector.new thousandths) (served ∷ timed_out ∷ [])) in
    Reports s.min_latency s.max_latency s.avg_latency (served ∷ timed_out ∷ [])
summary-extremes_example =
    summary-extremes thousandths served (timed_out ∷ []) (omega arith, (omega arith, tt))
      (omega arith) (omega arith)

abbrev two_workers : List (List RunResult)
two_workers = (served ∷ []) ∷ (timed_out ∷ served ∷ []) ∷ []

merge_workers-collected_example :
    Agree
      (merge_workers thousandths (Collector.new thousandths) two_workers)
      (collected thousandths (flatten two_workers))
merge_workers-collected_example =
    merge_workers-collected thousandths two_workers (omega arith, (omega arith, tt))
