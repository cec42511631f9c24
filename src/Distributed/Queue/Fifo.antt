-- ===== src/Distributed/Queue/Fifo.antt =====
-- internal/distributed/queue.go: jobs leave the queue in the order in which they entered it.
use perf_loadgen.Base.{
  ℕ, List, [], ◌∷◌, ◌++◌, Option, none, some, ◌≡◌, refl, ap, ◌∙◌, length, leb, Text, text_eq, Time,
  arith, lookup, modify, lookup-modify, put_fresh, ok, Bool-cases, Option-cases, inl, inr,
}
use perf_loadgen.Distributed.{DashboardState, JobSpec, running}
use perf_loadgen.Distributed.Queue.{
  QueuedJob, JobQueue, is_cancelled, is_terminal, pending_job, enqueue, hit, none_pending, scan,
  start_job, take_pending, complete_job, fail_job, cancel_job, cancel,
}
use perf_loadgen.Distributed.Queue.Order.{
  Jobs, waiting, remove, IsWellFormed, Head, scan_lem, Ends, waiting-modify, waiting-append,
  waiting-Head,
}

-- What a pass of `Dequeue` does, for the ids that wait.
abbrev pub Takes : Time → ℕ → JobQueue → List Text → Type 0
Takes now ctx q [] = take_pending now ctx q ≡ none
Takes now ctx q (id ∷ ids) =
    (j : QueuedJob) × (r : JobQueue) × (take_pending now ctx q ≡ some (j, r))
    × (j.id ≡ id)
    × (j.status ≡ running)
    × (j.cancel ≡ some ctx)
    × (lookup id r.jobs ≡ some j)
    × (waiting r.jobs ≡ ids)

pub start_job-Ends : (now : Time) (ctx : ℕ) → Ends (start_job now ctx)
start_job-Ends now ctx j = refl

pub cancel_job-Ends : (now : Time) → Ends (cancel_job now)
cancel_job-Ends now j = refl

pub complete_job-Ends : (now : Time) (result : DashboardState) → Ends (complete_job now result)
complete_job-Ends now result j = elim (Bool-cases (is_cancelled j.status)) [
  | inl c ↦ ground arith
  | inr c ↦ ground arith
]

pub fail_job-Ends : (now : Time) (error : Text) → Ends (fail_job now error)
fail_job-Ends now error j = elim (Bool-cases (is_cancelled j.status)) [
  | inl c ↦ ground arith
  | inr c ↦ ground arith
]

started : Time → ℕ → Text → JobQueue → JobQueue
started now ctx id q = record q { jobs = modify id (start_job now ctx) q.jobs }

take_pending_hit :
    (now : Time) (ctx : ℕ) (q : JobQueue) (id : Text) (j : QueuedJob)
    → scan q.jobs q.order ≡ hit id j
    → take_pending now ctx q ≡ some (start_job now ctx j, started now ctx id q)
unfolding started take_pending
take_pending_hit now ctx q id j h = rw (h, take_pending) refl

take_pending-none :
    (now : Time) (ctx : ℕ) (q : JobQueue)
    → scan q.jobs q.order ≡ none_pending
    → take_pending now ctx q ≡ none
unfolding take_pending
take_pending-none now ctx q h = rw (h, take_pending) refl

lookup_started :
    (now : Time) (ctx : ℕ) (id : Text) (m : Jobs) (j : QueuedJob)
    → lookup id m ≡ some j
    → lookup id (modify id (start_job now ctx) m) ≡ some (start_job now ctx j)
lookup_started now ctx id m j h =
    ground (arith, lookup-modify id id (start_job now ctx) m, text_eq.beq_iff id id)

Head-Takes :
    (now : Time) (ctx : ℕ) (q : JobQueue) (w : List Text)
    → IsWellFormed q
    → Head q.jobs w
    → Takes now ctx q w
unfolding Head started
Head-Takes now ctx q [] wf h = take_pending-none now ctx q (scan_lem q wf ∙ h)
Head-Takes now ctx q (id ∷ ids) wf (j, first, found, named, rest) = (
  start_job now ctx j,
  started now ctx id q,
  take_pending_hit now ctx q id j (scan_lem q wf ∙ first),
  named,
  refl,
  refl,
  lookup_started now ctx id q.jobs j found,
  waiting-modify id (start_job now ctx) q.jobs (start_job-Ends now ctx) wf.distinct ∙ rest,
)

-- On a well-formed queue a pass of Dequeue finds no job exactly when no id waits. Otherwise it
-- takes the id that has waited longest: the job runs, holds the caller's cancel function, is stored
-- so under its id, and the others wait in the same order.
pub take_pending-waiting :
    (now : Time) (ctx : ℕ) (q : JobQueue) → IsWellFormed q → Takes now ctx q (waiting q.jobs)
take_pending-waiting now ctx q wf =
    Head-Takes now ctx q (waiting q.jobs) wf (waiting-Head q.jobs wf.distinct wf.named)

-- On success Enqueue, with an id that is not in the map, appends the id to those that wait.
pub enqueue-waiting :
    (id : Text) (now : Time) (spec : JobSpec) (q r : JobQueue)
    → lookup id q.jobs ≡ none
    → enqueue id now spec q ≡ ok r
    → waiting r.jobs ≡ waiting q.jobs ++ id ∷ []
unfolding enqueue
enqueue-waiting id now spec q r fresh h = elim (Bool-cases (leb q.max_jobs (length q.jobs))) [
  | inl full ↦ ground arith
  | inr room ↦ ground (
    arith,
    put_fresh id (pending_job id spec now) q.jobs fresh,
    waiting-append id (pending_job id spec now) q.jobs refl,
  )
]

cancel_found :
    (id : Text) (now : Time) (q r : JobQueue) (ended : Option ℕ)
    → cancel id now q ≡ ok (r, ended)
    → r.jobs ≡ modify id (cancel_job now) q.jobs
unfolding cancel
cancel_found id now q r ended h = elim (Option-cases (lookup id q.jobs)) [
  | inl e ↦ ground arith
  | inr (j, e) ↦ elim (Bool-cases (is_terminal j.status)) [
    | inl t ↦ ground arith
    | inr t ↦ ground arith
  ]
]

-- On success Cancel takes the id out of those that wait, and keeps the order of the others.
pub cancel-waiting :
    (id : Text) (now : Time) (q r : JobQueue) (ended : Option ℕ)
    → IsWellFormed q
    → cancel id now q ≡ ok (r, ended)
    → waiting r.jobs ≡ remove id (waiting q.jobs)
cancel-waiting id now q r ended wf h =
    ap waiting (cancel_found id now q r ended h)
    ∙ waiting-modify id (cancel_job now) q.jobs (cancel_job-Ends now) wf.distinct
