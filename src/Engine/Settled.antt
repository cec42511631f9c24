-- ===== src/Engine/Settled.antt =====
-- internal/engine/engine.go: the counters of the report that RunDetailed returns.
use perf_loadgen.Base.{
  ℕ, suc, ◌+◌, ◌<◌, ◌≡◌, refl, ◌∙◌, ◌⊎◌, inl, inr, true, false, List, [], ◌∷◌, none, some, map, All,
  arith, length, nat_beq, two64, ◌==◌, text_eq, text_beq_iff, Bool-cases, Floats, Time,
}
use mathlib.Core.Path.{subst₂}
use perf_loadgen.Types.{RunResult, category_none}
use perf_loadgen.Config.{Config}
use perf_loadgen.Protocol.Httputil.{GoError, Outcome}
use perf_loadgen.Protocol.Httputil.Reported.{IsReported}
use perf_loadgen.Stats.Collector.{
  Collector, add, set_window, set_pricing, summary, full_summary, empty_summary, snapshot,
}
use perf_loadgen.Stats.Collector.Counting.{add_all}
use perf_loadgen.Stats.Collector
use perf_loadgen.Engine.Report.{settle, Observer, new_collector, collect, report, run_detailed}

-- Without an error a result is a success; with one it has no category yet, or is a failure.
abbrev pub Agrees : Outcome → Type 0
Agrees (r, none) = r.success ≡ true
Agrees (r, some e) = (r.error_category ≡ category_none) ⊎ (r.success ≡ false)

-- Every outcome of a runner is such a one, by Protocol.Contract.
pub IsReported-Agrees : (o : Outcome) → IsReported o → Agrees o
IsReported-Agrees (r, none) (ok, unnamed) = ok
IsReported-Agrees (r, some e) (fails, named, told) = inr fails

-- How many outcomes have no error, and how many have one.
abbrev pub succeeded : List Outcome → ℕ
succeeded [] = 0
succeeded ((r, none) ∷ os) = suc (succeeded os)
succeeded ((r, some e) ∷ os) = succeeded os

abbrev pub failed : List Outcome → ℕ
failed [] = 0
failed ((r, none) ∷ os) = failed os
failed ((r, some e) ∷ os) = suc (failed os)

settle-fails :
    (r : RunResult) (e : GoError) → Agrees (r, some e) → (settle (r, some e)).success ≡ false
unfolding settle
settle-fails r e (inl unnamed) = rw ((text_beq_iff r.error_category category_none).1 unnamed) refl
settle-fails r e (inr fails) = elim (Bool-cases (r.error_category == category_none)) [
  | inl unnamed ↦ rw unnamed refl
  | inr named ↦ rw named fails
]

pub record Tally (successes failures : ℕ) (c : Collector) : Type 0 where
  pub total : c.total_requests ≡ successes + failures
  pub succeeded : c.success_requests ≡ successes
  pub failed : c.failed_requests ≡ failures

module _ (f : Floats) where
  add_success :
      (n m : ℕ) (c : Collector) (r : RunResult)
      → r.success ≡ true
      → n + m + 1 < two64
      → Tally n m c
      → Tally (n + 1) m (add f c r)
  unfolding add
  add_success n m c r ok small t = record {
    total = ground (arith, t.total);
    succeeded = ground (arith, t.succeeded);
    failed = ground (arith, t.failed);
  }

  add_failure :
      (n m : ℕ) (c : Collector) (r : RunResult)
      → r.success ≡ false
      → n + m + 1 < two64
      → Tally n m c
      → Tally n (m + 1) (add f c r)
  unfolding add
  add_failure n m c r fails small t = record {
    total = ground (arith, t.total);
    succeeded = ground (arith, t.succeeded);
    failed = ground (arith, t.failed);
  }

  add_all-Tally :
      (n m : ℕ) (c : Collector) (os : List Outcome)
      → All Agrees os
      → n + m + length os < two64
      → Tally n m c
      → Tally (n + succeeded os) (m + failed os) (add_all f c (map settle os))
  unfolding add_all settle
  add_all-Tally n m c [] all small t =
      let left : n + 0 ≡ n = omega arith in
      let right : m + 0 ≡ m = omega arith in rw (left, right) t
  add_all-Tally n m c ((r, none) ∷ os) (ok, all) small t =
      let e : n + suc (succeeded os) ≡ n + 1 + succeeded os = omega arith in
      rw e (
        add_all-Tally (n + 1) m (add f c r) os all (omega arith)
          (add_success n m c r ok (omega arith) t))
  add_all-Tally n m c ((r, some g) ∷ os) (agrees, all) small t =
      let e : m + suc (failed os) ≡ m + 1 + failed os = omega arith in
      let fails = settle-fails r g agrees in
      rw e (
        add_all-Tally n (m + 1) (add f c (settle (r, some g))) os all (omega arith)
          (add_failure n m c (settle (r, some g)) fails (omega arith) t))

  new_collector-Tally : (cfg : Config) → Tally 0 0 (new_collector f cfg)
  unfolding new_collector set_pricing Collector.new
  new_collector-Tally cfg = elim (Bool-cases (f.flt (f.lit 0 1) cfg.model_price_per_1k)) [
    | inl priced ↦ rw priced (record { total = refl; succeeded = refl; failed = refl })
    | inr free ↦ rw free (record { total = refl; succeeded = refl; failed = refl })
  ]

  collect-add_all :
      {S : Type 0} (observer : Observer S) (c : Collector) (seen : List S) (rs : List RunResult)
      → (collect f observer c seen rs).0 ≡ add_all f c rs
  unfolding collect add_all
  collect-add_all observer c seen [] = refl
  collect-add_all observer c seen (r ∷ rs) =
      collect-add_all observer (add f c r) (map (λ s. observer.observe s r) seen) rs

  collected :
      {S : Type 0} (observer : Observer S) (cfg : Config) (os : List Outcome) (seen : List S)
      → All Agrees os
      → length os < two64
      → Tally
          (succeeded os)
          (failed os)
          (collect f observer (new_collector f cfg) seen (map settle os)).0
  collected observer cfg os seen all small =
      let first = new_collector-Tally cfg in
      let t = add_all-Tally 0 0 (new_collector f cfg) os all (omega arith) first in
      let left : 0 + succeeded os ≡ succeeded os = omega arith in
      let right : 0 + failed os ≡ failed os = omega arith in
      rw (collect-add_all observer (new_collector f cfg) seen (map settle os))
        (subst₂ (λ n m. Tally n m (add_all f (new_collector f cfg) (map settle os))) left right t)

  pub summary-Tally :
      (n m : ℕ) (c : Collector)
      → Tally n m c
      → ((summary f c).total_requests ≡ n + m)
        × ((summary f c).successful_requests ≡ n)
        × ((summary f c).failed_requests ≡ m)
  unfolding summary full_summary empty_summary
  summary-Tally n m c t = elim (Bool-cases (nat_beq c.total_requests 0)) [
    | inl none_yet ↦ rw none_yet (t.total, ground (arith, t.total), ground (arith, t.total))
    | inr some_yet ↦ rw some_yet (t.total, t.succeeded, t.failed)
  ]

  pub outcomes-length : (os : List Outcome) → succeeded os + failed os ≡ length os
  outcomes-length [] = refl
  outcomes-length ((r, none) ∷ os) = omega (arith, outcomes-length os)
  outcomes-length ((r, some e) ∷ os) = omega (arith, outcomes-length os)

  -- Of fewer than 2^64 outcomes, each of which has no error and is a success, or has an error and is a
  -- failure or has no category, the report counts all: as successes those without an error, and as
  -- failures those with one, in the summary and in the snapshot.
  pub run_detailed-counts :
      {S : Type 0} (observer : Observer S) (cfg : Config) (start end_ : Time) (os : List Outcome)
      (seen : List S)
      → All Agrees os
      → length os < two64
      → let r = (run_detailed f observer cfg start end_ os seen).0 in
        ((r.summary.total_requests ≡ length os)
          × (r.summary.successful_requests ≡ succeeded os)
          × (r.summary.failed_requests ≡ failed os))
        × ((r.snapshot.total_requests ≡ length os)
            × (r.snapshot.successful_requests ≡ succeeded os)
            × (r.snapshot.failed_requests ≡ failed os))
  unfolding run_detailed report set_window snapshot
  run_detailed-counts observer cfg start end_ os seen all small =
      let t = collected observer cfg os seen all small in
      let c = (collect f observer (new_collector f cfg) seen (map settle os)).0 in
      let s =
        summary-Tally (succeeded os) (failed os) (set_window start end_ c)
          (record { total = t.total; succeeded = t.succeeded; failed = t.failed }) in
      let sum = outcomes-length os in
      ((s.0 ∙ sum, s.1, s.2), (t.total ∙ sum, t.succeeded, t.failed))
