-- ===== src/Stats/Collector/Samples.antt =====
-- One result, counted on a worker before the merge or on the master after it.
use perf_loadgen.Base.{
  ◌<◌, ◌≡◌, refl, ◌∙◌, ap, List, [], ◌∷◌, arith, Bool-cases, inl, inr, text_eq, nat_eq, two64,
  is_pos64, count_of-bump_all-bump, Floats, Duration,
}
use perf_loadgen.Types.{RunResult}
use perf_loadgen.Stats.Histogram.{Histogram}
use perf_loadgen.Stats.Histogram
use perf_loadgen.Stats.Histogram.Merging.{IsOver, record_latency-IsOver, merge-record_latency}
use perf_loadgen.Stats.Collector.{Collector, add, merge_totals, snapshot, record_positive}
use perf_loadgen.Stats.Collector.Agreement.{Agree}

-- Counters below 2^64 and histograms over one list of bounds, as `NewCollector` makes them.
pub record IsWell (bs : List Duration) (c : Collector) : Type 0 where
  pub requests : c.total_requests < two64
  pub success : c.success_requests < two64
  pub failed : c.failed_requests < two64
  pub timed : c.requests_with_ttft < two64
  pub with_tokens : c.requests_with_tokens < two64
  pub tokens : c.total_output_tokens < two64
  pub aborted : c.streaming_aborted < two64
  pub upstream : c.requests_with_upstream < two64
  pub input : c.total_input_tokens < two64
  pub hits : c.cache_hits < two64
  pub reported : c.cache_requests < two64
  pub latencies : IsOver bs c.histogram
  pub first_tokens : IsOver bs c.ttft_hist
  pub gaps : IsOver bs c.itl_hist

record_positive-IsOver :
    (bs : List Duration) (h : Histogram) (ds : List Duration)
    → IsOver bs h
    → IsOver bs (record_positive h ds)
unfolding record_positive
record_positive-IsOver bs h [] v = v
record_positive-IsOver bs h (d ∷ ds) v = elim (Bool-cases (is_pos64 d)) [
  | inl p ↦
      rw p (
        record_positive-IsOver bs (Histogram.record_latency h d) ds
          (record_latency-IsOver bs h d v))
  | inr p ↦ rw p (record_positive-IsOver bs h ds v)
]

merge-record_positive :
    (bs : List Duration) (h g : Histogram) (ds : List Duration)
    → IsOver bs h
    → IsOver bs g
    → Histogram.merge h (Histogram.snapshot (record_positive g ds))
      ≡ record_positive (Histogram.merge h (Histogram.snapshot g)) ds
unfolding record_positive
merge-record_positive bs h g [] v w = refl
merge-record_positive bs h g (d ∷ ds) v w = elim (Bool-cases (is_pos64 d)) [
  | inl p ↦ rw p (
      merge-record_positive bs h (Histogram.record_latency g d) ds v
        (record_latency-IsOver bs g d w)
      ∙ ap (λ l. record_positive l ds) (merge-record_latency bs h g d v w))
  | inr p ↦ rw p (merge-record_positive bs h g ds v w)
]

module _ (f : Floats) (bs : List Duration) where
  pub add-IsWell : (c : Collector) (r : RunResult) → IsWell bs c → IsWell bs (add f c r)
  unfolding add
  add-IsWell c r v =
      let t = record_latency-IsOver bs c.ttft_hist r.ttft v.first_tokens in
      record {
        requests = omega arith;
        success = ground arith;
        failed = ground arith;
        timed = ground arith;
        with_tokens = ground arith;
        tokens = ground arith;
        aborted = ground arith;
        upstream = ground arith;
        input = ground arith;
        hits = ground arith;
        reported = ground arith;
        latencies = record_latency-IsOver bs c.histogram r.latency v.latencies;
        first_tokens = ground (arith, t);
        gaps = record_positive-IsOver bs c.itl_hist r.itl_samples v.gaps;
      }

  -- One result counts the same on the worker, before the merge, and on the master, after it.
  pub merge_totals-add :
      (c d : Collector) (r : RunResult)
      → IsWell bs c
      → IsWell bs d
      → Agree (merge_totals f c (snapshot (add f d r))) (add f (merge_totals f c (snapshot d)) r)
  unfolding merge_totals add snapshot
  merge_totals-add c d r v w =
      let t =
        merge-record_latency bs c.ttft_hist d.ttft_hist r.ttft v.first_tokens w.first_tokens in
      record {
        requests = omega arith;
        success = ground arith;
        failed = ground arith;
        timed = ground arith;
        with_tokens = ground arith;
        tokens = ground arith;
        aborted = ground arith;
        upstream = ground arith;
        input = ground arith;
        hits = ground arith;
        reported = ground arith;
        latencies =
            merge-record_latency bs c.histogram d.histogram r.latency v.latencies w.latencies;
        first_tokens = ground (arith, t);
        gaps = merge-record_positive bs c.itl_hist d.itl_hist r.itl_samples v.gaps w.gaps;
        codes_counted = λ k.
            ground (arith, count_of-bump_all-bump r.status_code k 1 d.status_codes c.status_codes);
        categories = λ k. ground (
          arith,
          count_of-bump_all-bump r.error_category k 1 d.error_categories c.error_categories,
        );
        provider = ground arith;
        model = ground arith;
      }
