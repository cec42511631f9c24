-- ===== src/Stats/Collector/Counting.antt =====
-- What `Add` keeps of a collector: its counters against the number of results that it has seen.
use perf_loadgen.Base.{
  ℕ, suc, ◌+◌, ◌<◌, ◌≤◌, ◌≡◌, refl, List, [], ◌∷◌, arith, length, two64, Floats,
}
use perf_loadgen.Types.{RunResult}
use perf_loadgen.Stats.Histogram.{Histogram, total, total_from, new-total}
use perf_loadgen.Stats.Histogram
use perf_loadgen.Stats.Histogram.Record.{IsShaped, total-record_latency, new-IsShaped}
use mathlib.Core.Path.{subst}
use native.Mathlib.Nat.{add-zero}
use perf_loadgen.Stats.Collector.{Collector, add, record_positive}
use perf_loadgen.Stats.Collector

-- A run's results, added in the order of arrival.
unfoldable pub add_all : Floats → Collector → List RunResult → Collector
add_all f c [] = c
add_all f c (r ∷ rs) = add_all f (add f c r) rs

-- The counters of a collector that has seen `n` results.
pub record Counts (n : ℕ) (c : Collector) : Type 0 where
  pub requests : c.total_requests ≡ n
  pub outcomes : c.success_requests + c.failed_requests ≡ n
  pub aborted : c.streaming_aborted ≤ n
  pub timed : c.requests_with_ttft ≤ n
  pub with_tokens : c.requests_with_tokens ≤ n
  pub upstream : c.requests_with_upstream ≤ n
  pub reported : c.cache_requests ≤ n
  pub hits : c.cache_hits ≤ c.cache_requests
  pub latencies : total c.histogram ≡ n
  pub first_tokens : total c.ttft_hist ≡ c.requests_with_ttft
  pub shaped : IsShaped c.histogram
  pub ttft_shaped : IsShaped c.ttft_hist

module _ (f : Floats) where
  pub add-Counts :
      (n : ℕ) (c : Collector) (r : RunResult)
      → Counts n c
      → n + 1 < two64
      → Counts (n + 1) (add f c r)
  unfolding add
  add-Counts n c r v m =
      let (one_more, _, s) = total-record_latency c.histogram r.latency v.shaped in
      let (one_timed, _, t) = total-record_latency c.ttft_hist r.ttft v.ttft_shaped in
      record {
        requests = ground arith;
        outcomes = ground arith;
        aborted = ground arith;
        timed = ground arith;
        with_tokens = ground arith;
        upstream = ground arith;
        reported = ground arith;
        hits = ground arith;
        latencies = ground (arith, one_more);
        first_tokens = ground (arith, one_timed);
        shaped = s;
        ttft_shaped = ground (arith, t);
      }

  pub new-Counts : Counts 0 (Collector.new f)
  unfolding Collector.new Histogram.new Histogram.bounds_from
  new-Counts = record {
    requests = refl;
    outcomes = omega arith;
    aborted = omega arith;
    timed = omega arith;
    with_tokens = omega arith;
    upstream = omega arith;
    reported = omega arith;
    hits = omega arith;
    latencies = new-total f;
    first_tokens = new-total f;
    shaped = new-IsShaped f;
    ttft_shaped = new-IsShaped f;
  }

  add_all_from-Counts :
      (n : ℕ) (c : Collector) (rs : List RunResult)
      → Counts n c
      → n + length rs < two64
      → Counts (n + length rs) (add_all f c rs)
  unfolding add_all
  add_all_from-Counts n c [] v m = rw add-zero v
  add_all_from-Counts n c (r ∷ rs) v m =
      let e : n + suc (length rs) ≡ n + 1 + length rs = omega arith in
      rw e (
        add_all_from-Counts (n + 1) (add f c r) rs (add-Counts n c r v (omega arith)) (omega arith))

  -- After any run of fewer than 2^64 requests the counters agree with the number of results: the
  -- successes and the failures add up to it, the histograms of latencies and of first tokens hold one
  -- sample for each result that they are about, and no partial count passes the total.
  pub add_all-Counts :
      (rs : List RunResult)
      → length rs < two64
      → Counts (length rs) (add_all f (Collector.new f) rs)
  add_all-Counts rs m =
      let e : 0 + length rs ≡ length rs = omega arith in
      subst (λ n. Counts n (add_all f (Collector.new f) rs)) e
        (add_all_from-Counts 0 (Collector.new f) rs new-Counts (omega arith))
