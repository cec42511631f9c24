-- ===== src/Distributed/Queue/Invariant.antt =====
-- internal/distributed/queue.go: what holds of the queue after every sequence of calls.
use perf_loadgen.Base.{
  ◌≤◌, true, [], ◌∷◌, ◌++◌, none, some, ◌≡◌, refl, ap, ◌∙◌, length, ◌==◌, Text, text_eq, Time,
  Int64, arith, keys, lookup, put, modify, lookup-put, lookup-modify, keys-modify, put_fresh,
  length-modify, length-append, modify-AreDistinct, append-AreDistinct, All-append, All-modify, err,
  Bool-cases, inl, inr,
}
use perf_loadgen.Distributed.{JobSpec}
use perf_loadgen.Distributed.Queue.{QueuedJob, JobQueue, new, is_cancelled, queue_full, enqueue}
use perf_loadgen.Distributed.Queue.Order.{Jobs, IsNamed, IsWellFormed}
use perf_loadgen.Distributed.Queue.Lifecycle.{
  step, Reaches, rest, call, SparesCancelled, Change, same, altered, added, step-Change,
}

pub new-IsWellFormed : (n : Int64) → IsWellFormed (new n)
unfolding new
new-IsWellFormed n = record { ordered = refl; distinct = tt; named = tt; bounded = omega arith }

keys-append : (id : Text) (j : QueuedJob) (m : Jobs) → keys (m ++ (id, j) ∷ []) ≡ keys m ++ id ∷ []
keys-append id j [] = refl
keys-append id j ((k, i) ∷ m) = ap (◌∷◌ k) (keys-append id j m)

pub Change-IsWellFormed : (q r : JobQueue) → Change q r → IsWellFormed q → IsWellFormed r
Change-IsWellFormed q _ same w = w
Change-IsWellFormed q _ (altered id g keeps spares) w = record {
  ordered = keys-modify id g q.jobs ∙ w.ordered;
  distinct = modify-AreDistinct id g q.jobs w.distinct;
  named = All-modify IsNamed id g q.jobs (λ j n. keeps j ∙ n) w.named;
  bounded = omega (arith, length-modify id g q.jobs, w.bounded);
}
Change-IsWellFormed q _ (added id j n fresh room) w = record {
  ordered =
      ap keys (put_fresh id j q.jobs fresh)
      ∙ keys-append id j q.jobs
      ∙ ap (λ ks. ks ++ id ∷ []) w.ordered;
  distinct = rw (put_fresh id j q.jobs fresh) (append-AreDistinct id j q.jobs w.distinct fresh);
  named =
      rw (put_fresh id j q.jobs fresh) (All-append IsNamed q.jobs ((id, j) ∷ []) w.named (n, tt));
  bounded = rw (put_fresh id j q.jobs fresh) (omega (arith, length-append q.jobs ((id, j) ∷ [])));
}

-- After every sequence of submissions with fresh ids, dequeues, completions, failures and
-- cancellations of a new queue, its map and its order have the same keys, no key twice, every job
-- stands under its own id, and there are at most max_jobs jobs.
pub Reaches-IsWellFormed : (n : Int64) (r : JobQueue) → Reaches (new n) r → IsWellFormed r
Reaches-IsWellFormed n _ rest = new-IsWellFormed n
Reaches-IsWellFormed n _ (call {r} c before fresh) =
    Change-IsWellFormed r (step c r) (step-Change c r fresh) (Reaches-IsWellFormed n r before)

lookup-altered :
    (k id : Text) (g : QueuedJob → QueuedJob) (m : Jobs) (j : QueuedJob)
    → SparesCancelled k g m
    → lookup id m ≡ some j
    → is_cancelled j.status ≡ true
    → lookup id (modify k g m) ≡ some j
lookup-altered k id g m j spares found c = elim (Bool-cases (k == id)) [
  | inl e ↦
      lookup-modify k id g m
      ∙ ground (arith, spares j (ap (λ i. lookup i m) ((text_eq.beq_iff k id).0 e) ∙ found) c)
  | inr e ↦ lookup-modify k id g m ∙ ground arith
]

lookup_fresh :
    (k id : Text) (i : QueuedJob) (m : Jobs) (j : QueuedJob)
    → lookup k m ≡ none
    → lookup id m ≡ some j
    → lookup id (put k i m) ≡ some j
lookup_fresh k id i m j fresh found = lookup-put k id i m ∙ ground (arith, text_eq.beq_iff k id)

Change-lookup :
    (id : Text) (j : QueuedJob) (q r : JobQueue)
    → Change q r
    → is_cancelled j.status ≡ true
    → lookup id q.jobs ≡ some j
    → lookup id r.jobs ≡ some j
Change-lookup id j q _ same c found = found
Change-lookup id j q _ (altered k g keeps spares) c found =
    lookup-altered k id g q.jobs j spares found c
Change-lookup id j q _ (added k i n fresh room) c found = lookup_fresh k id i q.jobs j fresh found

-- A cancelled job is final: after every further sequence of calls whose submissions have ids that no
-- job of the map has, it stands in the map unchanged, even when the run that was under way then
-- completes or fails.
pub Reaches-lookup :
    (id : Text) (j : QueuedJob) (q r : JobQueue)
    → lookup id q.jobs ≡ some j
    → is_cancelled j.status ≡ true
    → Reaches q r
    → lookup id r.jobs ≡ some j
Reaches-lookup id j q _ found c rest = found
Reaches-lookup id j q _ found c (call {r} s before fresh) =
    Change-lookup id j r (step s r) (step-Change s r fresh) c
      (Reaches-lookup id j q r found c before)

Change-length :
    (q r : JobQueue) → Change q r → (r.max_jobs ≡ q.max_jobs) × (length q.jobs ≤ length r.jobs)
Change-length q _ same = (refl, omega arith)
Change-length q _ (altered id g keeps spares) = (refl, omega (arith, length-modify id g q.jobs))
Change-length q _ (added id j n fresh room) =
    (refl, rw (put_fresh id j q.jobs fresh) (omega (arith, length-append q.jobs ((id, j) ∷ []))))

Reaches-length :
    (q r : JobQueue) → Reaches q r → (r.max_jobs ≡ q.max_jobs) × (length q.jobs ≤ length r.jobs)
Reaches-length q _ rest = (refl, omega arith)
Reaches-length q _ (call {r} c before fresh) =
    let earlier = Reaches-length q r before in
    let last = Change-length r (step c r) (step-Change c r fresh) in
    (last.0 ∙ earlier.0, omega (arith, earlier.1, last.1))

-- A full queue stays full: once max_jobs jobs were accepted, every later submission is refused,
-- after any calls whose submissions have fresh ids, even where all jobs are completed, failed or cancelled.
pub Reaches-enqueue :
    (id : Text) (now : Time) (spec : JobSpec) (q r : JobQueue)
    → q.max_jobs ≤ length q.jobs
    → Reaches q r
    → enqueue id now spec r ≡ err (queue_full (length r.jobs) r.max_jobs)
unfolding enqueue
Reaches-enqueue id now spec q r full steps =
    ground (arith, (Reaches-length q r steps).0, (Reaches-length q r steps).1)
