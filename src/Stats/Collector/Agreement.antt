-- ===== src/Stats/Collector/Agreement.antt =====
-- When two collectors report the same, and that adding and merging keep it so.
use perf_loadgen.Base.{
  ◌≡◌, refl, ◌∙◌, sym, List, [], ◌∷◌, arith, text_eq, nat_eq, Int64, count_of, count_of-bump,
  count_of-bump_all, Floats,
}
use perf_loadgen.Types.{RunResult, AggregateSnapshot, ErrorCategory}
use perf_loadgen.Stats.Collector.{Collector, add, merge_totals, merge_window}
use perf_loadgen.Stats.Collector.Counting.{add_all}

-- Two collectors report the same but for times: the counters, histograms, maps and labels agree.
pub record Agree (c d : Collector) : Type 0 where
  pub requests : c.total_requests ≡ d.total_requests
  pub success : c.success_requests ≡ d.success_requests
  pub failed : c.failed_requests ≡ d.failed_requests
  pub timed : c.requests_with_ttft ≡ d.requests_with_ttft
  pub with_tokens : c.requests_with_tokens ≡ d.requests_with_tokens
  pub tokens : c.total_output_tokens ≡ d.total_output_tokens
  pub aborted : c.streaming_aborted ≡ d.streaming_aborted
  pub upstream : c.requests_with_upstream ≡ d.requests_with_upstream
  pub input : c.total_input_tokens ≡ d.total_input_tokens
  pub hits : c.cache_hits ≡ d.cache_hits
  pub reported : c.cache_requests ≡ d.cache_requests
  pub latencies : c.histogram ≡ d.histogram
  pub first_tokens : c.ttft_hist ≡ d.ttft_hist
  pub gaps : c.itl_hist ≡ d.itl_hist
  pub codes_counted : (k : Int64) → count_of k c.status_codes ≡ count_of k d.status_codes
  pub categories :
      (k : ErrorCategory) → count_of k c.error_categories ≡ count_of k d.error_categories
  pub provider : c.provider ≡ d.provider
  pub model : c.model ≡ d.model

pub Agree-sym : (c d : Collector) → Agree c d → Agree d c
Agree-sym c d a = record {
  requests = sym a.requests;
  success = sym a.success;
  failed = sym a.failed;
  timed = sym a.timed;
  with_tokens = sym a.with_tokens;
  tokens = sym a.tokens;
  aborted = sym a.aborted;
  upstream = sym a.upstream;
  input = sym a.input;
  hits = sym a.hits;
  reported = sym a.reported;
  latencies = sym a.latencies;
  first_tokens = sym a.first_tokens;
  gaps = sym a.gaps;
  provider = sym a.provider;
  model = sym a.model;
  codes_counted = λ k. sym (a.codes_counted k);
  categories = λ k. sym (a.categories k);
}

pub Agree-refl : (c : Collector) → Agree c c
Agree-refl c = record {
  requests = refl;
  success = refl;
  failed = refl;
  timed = refl;
  with_tokens = refl;
  tokens = refl;
  aborted = refl;
  upstream = refl;
  input = refl;
  hits = refl;
  reported = refl;
  latencies = refl;
  first_tokens = refl;
  gaps = refl;
  codes_counted = λ k. refl;
  categories = λ k. refl;
  provider = refl;
  model = refl;
}

module _ (f : Floats) where
  pub Agree-add : (c d : Collector) (r : RunResult) → Agree c d → Agree (add f c r) (add f d r)
  unfolding add
  Agree-add c d r a = record {
    requests = cc;
    success = ground arith;
    failed = ground arith;
    timed = ground arith;
    with_tokens = ground arith;
    tokens = ground arith;
    aborted = ground arith;
    upstream = ground arith;
    input = ground arith;
    hits = ground arith;
    reported = ground arith;
    latencies = cc;
    first_tokens = ground arith;
    gaps = cc;
    codes_counted = λ k. ground (
      arith,
      count_of-bump r.status_code k 1 c.status_codes,
      count_of-bump r.status_code k 1 d.status_codes,
      a.codes_counted k,
    );
    categories = λ k. ground (
      arith,
      count_of-bump r.error_category k 1 c.error_categories,
      count_of-bump r.error_category k 1 d.error_categories,
      a.categories k,
    );
    provider = ground arith;
    model = ground arith;
  }

  pub Agree-add_all :
      (c d : Collector) (rs : List RunResult) → Agree c d → Agree (add_all f c rs) (add_all f d rs)
  unfolding add_all
  Agree-add_all c d [] a = a
  Agree-add_all c d (r ∷ rs) a = Agree-add_all (add f c r) (add f d r) rs (Agree-add c d r a)

  pub Agree-merge_totals :
      (c d : Collector) (s : AggregateSnapshot)
      → Agree c d
      → Agree (merge_totals f c s) (merge_totals f d s)
  unfolding merge_totals
  Agree-merge_totals c d s a = record {
    requests = cc;
    success = cc;
    failed = cc;
    timed = cc;
    with_tokens = cc;
    tokens = cc;
    aborted = cc;
    upstream = cc;
    input = cc;
    hits = cc;
    reported = cc;
    latencies = cc;
    first_tokens = cc;
    gaps = cc;
    codes_counted = λ k. ground (
      arith,
      count_of-bump_all k s.status_codes c.status_codes,
      count_of-bump_all k s.status_codes d.status_codes,
      a.codes_counted k,
    );
    categories = λ k. ground (
      arith,
      count_of-bump_all k s.error_categories c.error_categories,
      count_of-bump_all k s.error_categories d.error_categories,
      a.categories k,
    );
    provider = ground arith;
    model = ground arith;
  }

  pub Agree-window : (c : Collector) (s : AggregateSnapshot) → Agree (merge_window f c s) c
  unfolding merge_window
  Agree-window c s = record {
    requests = refl;
    success = refl;
    failed = refl;
    timed = refl;
    with_tokens = refl;
    tokens = refl;
    aborted = refl;
    upstream = refl;
    input = refl;
    hits = refl;
    reported = refl;
    latencies = refl;
    first_tokens = refl;
    gaps = refl;
    codes_counted = λ k. refl;
    categories = λ k. refl;
    provider = refl;
    model = refl;
  }

  pub Agree-trans : (c d e : Collector) → Agree c d → Agree d e → Agree c e
  Agree-trans c d e a b = record {
    requests = a.requests ∙ b.requests;
    success = a.success ∙ b.success;
    failed = a.failed ∙ b.failed;
    timed = a.timed ∙ b.timed;
    with_tokens = a.with_tokens ∙ b.with_tokens;
    tokens = a.tokens ∙ b.tokens;
    aborted = a.aborted ∙ b.aborted;
    upstream = a.upstream ∙ b.upstream;
    input = a.input ∙ b.input;
    hits = a.hits ∙ b.hits;
    reported = a.reported ∙ b.reported;
    latencies = a.latencies ∙ b.latencies;
    first_tokens = a.first_tokens ∙ b.first_tokens;
    gaps = a.gaps ∙ b.gaps;
    codes_counted = λ k. a.codes_counted k ∙ b.codes_counted k;
    categories = λ k. a.categories k ∙ b.categories k;
    provider = a.provider ∙ b.provider;
    model = a.model ∙ b.model;
  }
