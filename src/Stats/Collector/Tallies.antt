-- ===== src/Stats/Collector/Tallies.antt =====
-- internal/stats/collector.go: what exactly the counters and the histograms of a collector count.
use perf_loadgen.Base.{
  ℕ, ◌+◌, ◌<◌, ◌≡◌, Bool, true, false, not, ◌||◌, List, [], ◌∷◌, arith, length, two64, is_pos64,
  Bool-cases, inl, inr, Floats, Duration,
}
use perf_loadgen.Types.{RunResult}
use perf_loadgen.Stats.Histogram.{Histogram, total, record_latency, new-total}
use perf_loadgen.Stats.Histogram
use perf_loadgen.Stats.Histogram.Record.{IsShaped, total-record_latency, new-IsShaped}
use perf_loadgen.Stats.Collector.{Collector, add, record_positive}
use perf_loadgen.Stats.Collector
use perf_loadgen.Stats.Collector.Counting.{add_all, Counts, add-Counts, new-Counts, add_all-Counts}

-- How many results pass a test.
abbrev one_if : Bool → ℕ
one_if true = 1
one_if false = 0

abbrev pub count : (RunResult → Bool) → List RunResult → ℕ
count test [] = 0
count test (r ∷ rs) = one_if (test r) + count test rs

-- How many gaps between tokens are positive.
abbrev pub positives : List Duration → ℕ
positives [] = 0
positives (d ∷ ds) = one_if (is_pos64 d) + positives ds

abbrev pub gaps : List RunResult → ℕ
gaps [] = 0
gaps (r ∷ rs) = positives r.itl_samples + gaps rs

-- What `d` counts beyond `c` are these results.
pub record Tallies (rs : List RunResult) (c d : Collector) : Type 0 where
  pub success : d.success_requests ≡ c.success_requests + count (λ r. r.success) rs
  pub failed : d.failed_requests ≡ c.failed_requests + count (λ r. not r.success) rs
  pub aborted : d.streaming_aborted ≡ c.streaming_aborted + count (λ r. r.streaming_aborted) rs
  pub timed : d.requests_with_ttft ≡ c.requests_with_ttft + count (λ r. is_pos64 r.ttft) rs
  pub with_tokens :
      d.requests_with_tokens ≡ c.requests_with_tokens + count (λ r. is_pos64 r.output_tokens) rs
  pub upstream :
      d.requests_with_upstream
      ≡ c.requests_with_upstream + count (λ r. is_pos64 r.upstream_latency) rs
  pub hits : d.cache_hits ≡ c.cache_hits + count (λ r. r.cache_hit) rs
  pub reported :
      d.cache_requests ≡ c.cache_requests + count (λ r. r.cache_reported || r.cache_hit) rs
  pub token_gaps : total d.itl_hist ≡ total c.itl_hist + gaps rs

total-record_positive :
    (h : Histogram) (ds : List Duration)
    → IsShaped h
    → total h + positives ds < two64
    → (total (record_positive h ds) ≡ total h + positives ds) × IsShaped (record_positive h ds)
unfolding record_positive
total-record_positive h [] s m = (omega arith, s)
total-record_positive h (d ∷ ds) s m = elim (Bool-cases (is_pos64 d)) [
  | inl p ↦
      let (more, _, t) = total-record_latency h d s in
      let (all, u) = total-record_positive (record_latency h d) ds t (ground (arith, p, more, m)) in
      rw p (ground (arith, p, more, all, m), u)
  | inr p ↦
      let (all, u) = total-record_positive h ds s (ground (arith, p, m)) in
      rw p (ground (arith, p, all), u)
]

module _ (f : Floats) where
  add-Tallies :
      (n : ℕ) (c : Collector) (r : RunResult)
      → Counts n c
      → n + 1 < two64
      → IsShaped c.itl_hist
      → total c.itl_hist + positives r.itl_samples < two64
      → Tallies (r ∷ []) c (add f c r) × IsShaped (add f c r).itl_hist
  unfolding add
  add-Tallies n c r v m s short =
      let (more, t) = total-record_positive c.itl_hist r.itl_samples s short in
      (
        record {
          success = ground (arith, v.outcomes);
          failed = ground (arith, v.outcomes);
          aborted = ground (arith, v.aborted);
          timed = ground (arith, v.timed);
          with_tokens = ground (arith, v.with_tokens);
          upstream = ground (arith, v.upstream);
          hits = ground (arith, v.hits, v.reported);
          reported = ground (arith, v.reported);
          token_gaps = omega (arith, more);
        },
        t,
      )

  one_more :
      (r : RunResult) (rs : List RunResult) (c d e : Collector)
      → Tallies (r ∷ []) c d
      → Tallies rs d e
      → Tallies (r ∷ rs) c e
  one_more r rs c d e a b = record {
    success = omega (arith, a.success, b.success);
    failed = omega (arith, a.failed, b.failed);
    aborted = omega (arith, a.aborted, b.aborted);
    timed = omega (arith, a.timed, b.timed);
    with_tokens = omega (arith, a.with_tokens, b.with_tokens);
    upstream = omega (arith, a.upstream, b.upstream);
    hits = omega (arith, a.hits, b.hits);
    reported = omega (arith, a.reported, b.reported);
    token_gaps = omega (arith, a.token_gaps, b.token_gaps);
  }

  none_more : (c : Collector) → Tallies [] c c
  none_more c = record {
    success = omega arith;
    failed = omega arith;
    aborted = omega arith;
    timed = omega arith;
    with_tokens = omega arith;
    upstream = omega arith;
    hits = omega arith;
    reported = omega arith;
    token_gaps = omega arith;
  }

  add_all_from-Tallies :
      (n : ℕ) (c : Collector) (rs : List RunResult)
      → Counts n c
      → n + length rs < two64
      → IsShaped c.itl_hist
      → total c.itl_hist + gaps rs < two64
      → Tallies rs c (add_all f c rs)
  unfolding add_all
  add_all_from-Tallies n c [] v m s short = none_more c
  add_all_from-Tallies n c (r ∷ rs) v m s short =
      let (a, t) = add-Tallies n c r v (omega arith) s (omega arith) in
      one_more r rs c (add f c r) (add_all f (add f c r) rs) a (
        add_all_from-Tallies (n + 1) (add f c r) rs (add-Counts f n c r v (omega arith))
          (omega arith) t (omega (arith, a.token_gaps)))

  new_gaps : (total (Collector.new f).itl_hist ≡ 0) × IsShaped (Collector.new f).itl_hist
  unfolding Collector.new Histogram.new Histogram.bounds_from
  new_gaps = (new-total f, new-IsShaped f)

  -- After a run of fewer than 2^64 results with fewer than 2^64 positive gaps between tokens, the
  -- counters of a new collector are the numbers of successes, of failures, of aborted streams, of
  -- results with a first token, with tokens, with an upstream latency, with a cache hit and with a
  -- report on the cache; the histogram of latencies holds one sample for each result, that of first
  -- tokens one for each result with a first token, and that of gaps one for each positive gap.
  pub add_all-Tallies :
      (rs : List RunResult)
      → length rs < two64
      → gaps rs < two64
      → Counts (length rs) (add_all f (Collector.new f) rs)
        × Tallies rs (Collector.new f) (add_all f (Collector.new f) rs)
  add_all-Tallies rs m short =
      let (zero_gaps, s) = new_gaps in
      (
        add_all-Counts f rs m,
        add_all_from-Tallies 0 (Collector.new f) rs (new-Counts f) (omega arith) s
            (omega (arith, zero_gaps)),
      )
