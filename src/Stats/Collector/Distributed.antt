-- ===== src/Stats/Collector/Distributed.antt =====
-- Distributed aggregation: merging a worker's snapshot against adding the worker's results.
use perf_loadgen.Base.{
  ◌<◌, ◌≡◌, refl, ◌∙◌, sym, List, [], ◌∷◌, ◌++◌, arith, length, nat_beq, Bool-cases, inl, inr,
  text_eq, nat_eq, replicate, two64, bump_all, Floats, Duration, All,
}
use mathlib.Core.Path.{subst}
use mathlib.Core.List.{flatten}
use perf_loadgen.Types.{RunResult, AggregateSnapshot}
use perf_loadgen.Stats.Histogram.{Histogram}
use perf_loadgen.Stats.Histogram
use perf_loadgen.Stats.Histogram.Merging.{merge-new, new-IsOver, new-counts}
use perf_loadgen.Stats.Collector.{
  Collector, add, merge, merge_totals, merge_window, snapshot, record_positive,
}
use perf_loadgen.Stats.Collector
use perf_loadgen.Stats.Collector.Counting.{add_all, add_all-Counts}
use perf_loadgen.Stats.Collector.Agreement.{
  Agree, Agree-sym, Agree-refl, Agree-add_all, Agree-merge_totals, Agree-window, Agree-trans,
}
use perf_loadgen.Stats.Collector.Samples.{IsWell, add-IsWell, merge_totals-add}

module _ (f : Floats) where
  abbrev bounds : List Duration
  bounds = (Histogram.new f).bounds

  -- What a worker hands back after its part of the run.
  abbrev pub collected : List RunResult → Collector
  collected rs = add_all f (Collector.new f) rs

  new-IsWell : IsWell bounds (Collector.new f)
  unfolding Collector.new
  new-IsWell = record {
    requests = omega arith;
    success = omega arith;
    failed = omega arith;
    timed = omega arith;
    with_tokens = omega arith;
    tokens = omega arith;
    aborted = omega arith;
    upstream = omega arith;
    input = omega arith;
    hits = omega arith;
    reported = omega arith;
    latencies = new-IsOver f;
    first_tokens = new-IsOver f;
    gaps = new-IsOver f;
  }

  add_all-IsWell :
      (c : Collector) (rs : List RunResult) → IsWell bounds c → IsWell bounds (add_all f c rs)
  unfolding add_all
  add_all-IsWell c [] v = v
  add_all-IsWell c (r ∷ rs) v = add_all-IsWell (add f c r) rs (add-IsWell f bounds c r v)

  merge_totals-new :
      (c : Collector) → IsWell bounds c → Agree (merge_totals f c (snapshot (Collector.new f))) c
  unfolding merge_totals snapshot Collector.new
  merge_totals-new c v =
      let empty : (Histogram.new f).counts ≡ replicate (length bounds) 0 = new-counts f in
      record {
        requests = omega (arith, v.requests);
        success = omega (arith, v.success);
        failed = omega (arith, v.failed);
        timed = omega (arith, v.timed);
        with_tokens = omega (arith, v.with_tokens);
        tokens = omega (arith, v.tokens);
        aborted = omega (arith, v.aborted);
        upstream = omega (arith, v.upstream);
        input = omega (arith, v.input);
        hits = omega (arith, v.hits);
        reported = omega (arith, v.reported);
        latencies = merge-new bounds c.histogram (Histogram.new f) v.latencies empty (new-IsOver f);
        first_tokens =
            merge-new bounds c.ttft_hist (Histogram.new f) v.first_tokens empty (new-IsOver f);
        gaps = merge-new bounds c.itl_hist (Histogram.new f) v.gaps empty (new-IsOver f);
        codes_counted = λ k. unfold bump_all in refl;
        categories = λ k. unfold bump_all in refl;
        provider = ground arith;
        model = ground arith;
      }

  merge_totals-add_all :
      (c d : Collector) (rs : List RunResult)
      → IsWell bounds c
      → IsWell bounds d
      → Agree
          (merge_totals f c (snapshot (add_all f d rs)))
          (add_all f (merge_totals f c (snapshot d)) rs)
  unfolding add_all
  merge_totals-add_all c d [] v w = Agree-refl _
  merge_totals-add_all c d (r ∷ rs) v w =
      Agree-trans f _ _ _ (merge_totals-add_all c (add f d r) rs v (add-IsWell f bounds d r w))
        (Agree-add_all f _ _ rs (merge_totals-add f bounds c d r v w))

  merge-nonempty :
      (c : Collector) (rs : List RunResult)
      → 0 < length rs
      → length rs < two64
      → merge f c (snapshot (collected rs))
        ≡ merge_totals f (merge_window f c (snapshot (collected rs))) (snapshot (collected rs))
  unfolding merge snapshot
  merge-nonempty c rs some_requests m = ground (arith, (add_all-Counts f rs m).requests)

  merge-empty :
      (c : Collector)
      → merge f c (snapshot (collected [])) ≡ merge_window f c (snapshot (collected []))
  unfolding merge snapshot add_all Collector.new
  merge-empty c = refl

  -- Merging one worker's snapshot is the same as adding its results one by one.
  merge-collected :
      (c : Collector) (rs : List RunResult)
      → IsWell bounds c
      → length rs < two64
      → Agree (merge f c (snapshot (collected rs))) (add_all f c rs)
  unfolding add_all
  merge-collected c [] v m =
      subst (λ d. Agree d c) (sym (merge-empty c)) (Agree-window f c (snapshot (collected [])))
  merge-collected c (r ∷ rs) v m =
      let s = snapshot (collected (r ∷ rs)) in
      subst (λ d. Agree d (add_all f c (r ∷ rs))) (sym (merge-nonempty c (r ∷ rs) (omega arith) m))
        (Agree-trans f _ _ _ (Agree-merge_totals f _ _ s (Agree-window f c s)) (
          Agree-trans f _ _ _ (merge_totals-add_all c (Collector.new f) (r ∷ rs) v new-IsWell)
            (Agree-add_all f _ _ (r ∷ rs) (merge_totals-new c v))))

  -- The master's loop over the workers' results.
  unfoldable pub merge_workers : Collector → List (List RunResult) → Collector
  merge_workers c [] = c
  merge_workers c (rs ∷ workers) = merge_workers (merge f c (snapshot (collected rs))) workers

  Agree-merge :
      (c d : Collector) (s : AggregateSnapshot) → Agree c d → Agree (merge f c s) (merge f d s)
  unfolding merge
  Agree-merge c d s a =
      let b =
        Agree-trans f _ _ _ (Agree-window f c s)
          (Agree-trans f _ _ _ a (Agree-sym _ _ (Agree-window f d s))) in
      elim (Bool-cases (nat_beq s.total_requests 0)) [
        | inl e ↦ rw e b
        | inr e ↦ rw e (Agree-merge_totals f _ _ s b)
      ]

  add_all-append :
      (c : Collector) (rs qs : List RunResult)
      → add_all f c (rs ++ qs) ≡ add_all f (add_all f c rs) qs
  unfolding add_all
  add_all-append c [] qs = refl
  add_all-append c (r ∷ rs) qs = add_all-append (add f c r) rs qs

  abbrev pub Countable : List RunResult → Type 0
  Countable rs = length rs < two64

  merge_workers-Agree :
      (c e : Collector) (workers : List (List RunResult))
      → Agree c e
      → IsWell bounds e
      → All Countable workers
      → Agree (merge_workers c workers) (add_all f e (flatten workers))
  unfolding merge_workers add_all flatten
  merge_workers-Agree c e [] a v m = a
  merge_workers-Agree c e (rs ∷ workers) a v (m, ms) =
      subst (Agree (merge_workers c (rs ∷ workers))) (sym (add_all-append e rs (flatten workers))) (
        merge_workers-Agree (merge f c (snapshot (collected rs))) (add_all f e rs) workers
          (Agree-trans f _ _ _ (Agree-merge c e (snapshot (collected rs)) a)
            (merge-collected e rs v m))
          (add_all-IsWell e rs v) ms)

  -- However a run's results are spread over workers, the master that merges their snapshots in
  -- turn reports what one process would that has added all the results itself, but for the times
  -- and for the floating-point token rate: the same counters, the same three histograms, the
  -- same counts by status code and by error category, the same provider and model.
  pub merge_workers-collected :
      (workers : List (List RunResult))
      → All Countable workers
      → Agree (merge_workers (Collector.new f) workers) (collected (flatten workers))
  merge_workers-collected workers m =
      merge_workers-Agree (Collector.new f) (Collector.new f) workers (Agree-refl _) new-IsWell m

  -- The mark that token counts are estimates does not reach the master: whatever the workers
  -- saw, a merged collector has it only if it had it before.
  pub merge_workers-tokens_estimated :
      (c : Collector) (workers : List (List RunResult))
      → (merge_workers c workers).tokens_estimated ≡ c.tokens_estimated
  unfolding merge_workers merge
  merge_workers-tokens_estimated c [] = refl
  merge_workers-tokens_estimated c (rs ∷ workers) =
      merge_workers-tokens_estimated (merge f c (snapshot (collected rs))) workers ∙ ground arith
