-- ===== src/Distributed/Master/Totals.antt =====
-- internal/distributed: a run from the requests on the workers to the summary of the master.
use perf_loadgen.Base.{
  ℕ, ◌+◌, ◌<◌, ◌≡◌, refl, ◌∙◌, List, [], ◌∷◌, some, arith, length, All, Bool-cases, inl, inr,
  nat_beq, two64, Text, Time, Floats, Result, ok, err,
}
use mathlib.Core.Path.{subst₂}
use perf_loadgen.Types.{AggregateSnapshot, Summary}
use perf_loadgen.Protocol.Httputil.{Outcome}
use perf_loadgen.Stats.Collector.{
  Collector, merge, merge_window, merge_totals, set_window, set_pricing, summary,
}
use perf_loadgen.Stats.Collector
use perf_loadgen.Engine.Settled.{
  Agrees, succeeded, failed, Tally, summary-Tally, outcomes-length, run_detailed-counts,
}
use perf_loadgen.Distributed.{WorkerResult, WorkerState}
use perf_loadgen.Distributed.Worker.Answer.{Part, nobody, worker_result}
use perf_loadgen.Distributed.Master.Gather.{collect, gather, starting, run}

-- A worker that the master gets an answer from, or the error of the dispatch.
abbrev pub counted : (List Outcome → ℕ) → Result Text Part → ℕ
counted g (err e) = 0
counted g (ok p) = g p.outcomes

abbrev pub sum_of : (List Outcome → ℕ) → (ℕ → Result Text Part) → List ℕ → ℕ
sum_of g parts [] = 0
sum_of g parts (i ∷ order) = counted g (parts i) + sum_of g parts order

abbrev pub PartAgrees : Result Text Part → Type 0
PartAgrees (err e) = Unit {0}
PartAgrees (ok p) = All Agrees p.outcomes

abbrev pub answered_by :
    Floats → (ℕ → Text) → Text → ℕ → Result Text Part → Result Text WorkerResult
answered_by f ids job_id i (err e) = err e
answered_by f ids job_id i (ok p) = ok (worker_result f (ids i) job_id p)

module _ (f : Floats) where
  merge-Tally :
      (n m a b : ℕ) (c : Collector) (s : AggregateSnapshot)
      → Tally n m c
      → s.total_requests ≡ a + b
      → s.successful_requests ≡ a
      → s.failed_requests ≡ b
      → n + m + (a + b) < two64
      → Tally (n + a) (m + b) (merge f c s)
  unfolding merge merge_window merge_totals
  merge-Tally n m a b c s t total good bad small = elim (Bool-cases (nat_beq s.total_requests 0)) [
    | inl empty ↦
        let e : a + b ≡ 0 = ground (arith, total) in
        rw empty (record {
          total = omega (arith, t.total);
          succeeded = omega (arith, t.succeeded);
          failed = omega (arith, t.failed);
        })
    | inr some_requests ↦ rw some_requests (record {
      total = omega (arith, t.total, total);
      succeeded = omega (arith, t.succeeded, good);
      failed = omega (arith, t.failed, bad);
    })
  ]

  answer-Tally :
      (n m : ℕ) (c : Collector) (id job_id : Text) (p : Part)
      → Tally n m c
      → All Agrees p.outcomes
      → n + m + length p.outcomes < two64
      → Tally
          (n + succeeded p.outcomes)
          (m + failed p.outcomes)
          (merge f c (worker_result f id job_id p).snapshot)
  unfolding worker_result
  answer-Tally n m c id job_id p t all small =
      let sum = outcomes-length f p.outcomes in
      let (_, (total, good, bad)) =
        run_detailed-counts f nobody p.config p.window_start p.window_end p.outcomes [] all
          (omega arith) in
      merge-Tally n m (succeeded p.outcomes) (failed p.outcomes) c _ t (omega (arith, total, sum))
        good bad (omega (arith, sum))

  module _ (ids : ℕ → Text) (job_id : Text) (address : ℕ → Text) (parts : ℕ → Result Text Part)
      (agree : (i : ℕ) → PartAgrees (parts i)) where
    abbrev outcome : ℕ → Result Text WorkerResult
    outcome i = answered_by f ids job_id i (parts i)

    collect-Tally :
        (n m : ℕ) (c : Collector) (i : ℕ) (part : Result Text Part)
        → PartAgrees part
        → Tally n m c
        → n + m + counted length part < two64
        → Tally
            (n + counted succeeded part)
            (m + counted failed part)
            (collect f address outcome (answered_by f ids job_id i part) c)
    unfolding collect
    collect-Tally n m c i (err e) all t small =
        let left : n + 0 ≡ n = omega arith in
        let right : m + 0 ≡ m = omega arith in rw (left, right) t
    collect-Tally n m c i (ok p) all t small = answer-Tally n m c (ids i) job_id p t all small

    counted-length :
        (part : Result Text Part)
        → counted succeeded part + counted failed part ≡ counted length part
    counted-length (err e) = refl
    counted-length (ok p) = outcomes-length f p.outcomes

    gather-Tally :
        (n m : ℕ) (c : Collector) (order : List ℕ) (states : List WorkerState)
        → Tally n m c
        → n + m + sum_of length parts order < two64
        → Tally
            (n + sum_of succeeded parts order)
            (m + sum_of failed parts order)
            (gather f address outcome order (states, c)).1
    unfolding gather
    gather-Tally n m c [] states t small =
        let left : n + 0 ≡ n = omega arith in
        let right : m + 0 ≡ m = omega arith in rw (left, right) t
    gather-Tally n m c (i ∷ order) states t small =
        let a = counted succeeded (parts i) in
        let b = counted failed (parts i) in
        let sum = counted-length (parts i) in
        let left : n + (a + sum_of succeeded parts order) ≡ n + a + sum_of succeeded parts order =
          omega arith in
        let right : m + (b + sum_of failed parts order) ≡ m + b + sum_of failed parts order =
          omega arith in
        rw (left, right)
          (gather-Tally (n + a) (m + b) _ order _
            (collect-Tally n m c i (parts i) (agree i) t (omega arith)) (omega (arith, sum)))

    starting-Tally : (price : ℕ) → Tally 0 0 (starting f address outcome price)
    unfolding set_pricing Collector.new
    starting-Tally price = elim (Bool-cases (f.flt (f.lit 0 1) price)) [
      | inl priced ↦ rw priced (record { total = refl; succeeded = refl; failed = refl })
      | inr free ↦ rw free (record { total = refl; succeeded = refl; failed = refl })
    ]

    sum_of-length :
        (order : List ℕ)
        → sum_of succeeded parts order + sum_of failed parts order ≡ sum_of length parts order
    sum_of-length [] = refl
    sum_of-length (i ∷ order) = omega (arith, counted-length (parts i), sum_of-length order)

    gathered-Tally :
        (price : ℕ) (order : List ℕ) (states : List WorkerState)
        → sum_of length parts order < two64
        → Tally
            (sum_of succeeded parts order)
            (sum_of failed parts order)
            (gather f address outcome order (states, starting f address outcome price)).1
    gathered-Tally price order states small =
        let left : 0 + sum_of succeeded parts order ≡ sum_of succeeded parts order = omega arith in
        let right : 0 + sum_of failed parts order ≡ sum_of failed parts order = omega arith in
        subst₂
          (λ n m.
            Tally n m (gather f address outcome order (states, starting f address outcome price)).1)
          left right (gather-Tally 0 0 _ order states (starting-Tally price) (omega arith))

    -- In whichever order the workers' answers arrive, and whichever dispatches fail, the summary of
    -- the master counts every outcome of a request on the workers that answered, fewer than 2^64 in
    -- all: as successes those without an error, as failures those with one, where without an error a
    -- result is a success, and with one it is a failure or has no category.
    pub run-counts :
        (price : ℕ) (started ended completed : Time) (order : List ℕ) (checked : List WorkerState)
        → sum_of length parts order < two64
        → (s : Summary) × ((run f address outcome price job_id started ended completed order
              checked).summary
            ≡ some s)
          × (s.total_requests ≡ sum_of length parts order)
          × (s.successful_requests ≡ sum_of succeeded parts order)
          × (s.failed_requests ≡ sum_of failed parts order)
    unfolding run set_window
    run-counts price started ended completed order checked small =
        let t = gathered-Tally price order checked small in
        let c = (gather f address outcome order (checked, starting f address outcome price)).1 in
        let (total, good, bad) =
          summary-Tally f (sum_of succeeded parts order) (sum_of failed parts order)
            (set_window started ended c)
            (record { total = t.total; succeeded = t.succeeded; failed = t.failed }) in
        (summary f (set_window started ended c), refl, total ∙ sum_of-length order, good, bad)
