-- ===== src/Distributed/Queue/Lifecycle.antt =====
-- internal/distributed/queue.go: every sequence of calls of the queue, as steps under its lock.
use perf_loadgen.Base.{
  ℕ, ◌<◌, true, false, List, [], ◌∷◌, ◌++◌, Option, none, some, ◌≡◌, refl, sym, ◌∙◌, length, leb,
  Text, text_eq, Time, arith, lookup, put, modify, Result, ok, err, ◌⊎◌, Bool-cases, Option-cases,
  inl, inr,
}
use perf_loadgen.Distributed.{
  DashboardState, JobSpec, pending, running, completed, failed, cancelled, JobStatus,
}
use perf_loadgen.Distributed.Queue.{
  QueuedJob, JobQueue, is_pending, is_cancelled, is_terminal, QueueError, pending_job, enqueue,
  Scan, hit, none_pending, nil_job, scan, start_job, take_pending, complete_job, complete, fail_job,
  fail, cancel_job, cancel,
}
use perf_loadgen.Distributed.Queue.Order.{Jobs}

-- One call, by a client or by the background processor.
pub data Call : Type 0 where
  submit : Text → Time → JobSpec → Call
  start : Time → ℕ → Call
  finish : Text → Time → DashboardState → Call
  abort : Text → Time → Text → Call
  stop : Text → Time → Call

abbrev pub or_same : {E : Type 0} → Result E JobQueue → JobQueue → JobQueue
or_same (ok r) q = r
or_same (err e) q = q

abbrev pub started_queue : Option (QueuedJob × JobQueue) → JobQueue → JobQueue
started_queue none q = q
started_queue (some (j, r)) q = r

abbrev pub stopped_queue : Result QueueError (JobQueue × Option ℕ) → JobQueue → JobQueue
stopped_queue (ok (r, ended)) q = r
stopped_queue (err e) q = q

-- The queue after a call; one that fails leaves it as it was.
unfoldable pub step : Call → JobQueue → JobQueue
step (submit id now spec) q = or_same (enqueue id now spec q) q
step (start now ctx) q = started_queue (take_pending now ctx q) q
step (finish id now result) q = complete id now result q
step (abort id now error) q = fail id now error q
step (stop id now) q = stopped_queue (cancel id now q) q

-- A submitted job gets an id that no job has; ids are time stamps in nanoseconds.
abbrev pub IsFresh : Call → JobQueue → Type 0
IsFresh (submit id now spec) q = lookup id q.jobs ≡ none
IsFresh _ q = Unit {0}

pub data Reaches (q : JobQueue) : JobQueue → Type 0 where
  rest : Reaches q q
  call : {r : JobQueue} (c : Call) → Reaches q r → IsFresh c r → Reaches q (step c r)

-- What a call can do to the queue.
abbrev pub KeepsId : (QueuedJob → QueuedJob) → Type 0
KeepsId g = (j : QueuedJob) → (g j).id ≡ j.id

abbrev pub SparesCancelled : Text → (QueuedJob → QueuedJob) → Jobs → Type 0
SparesCancelled id g m =
    (j : QueuedJob) → lookup id m ≡ some j → is_cancelled j.status ≡ true → g j ≡ j

pub data Change (q : JobQueue) : JobQueue → Type 0 where
  same : Change q q
  altered :
      (id : Text) (g : QueuedJob → QueuedJob)
      → KeepsId g
      → SparesCancelled id g q.jobs
      → Change q (record q { jobs = modify id g q.jobs })
  added :
      (id : Text) (j : QueuedJob)
      → j.id ≡ id
      → lookup id q.jobs ≡ none
      → length q.jobs < q.max_jobs
      → Change q (record q { jobs = put id j q.jobs; order = q.order ++ id ∷ []; signal = true })

scan_skip :
    (m : Jobs) (k : Text) (ks : List Text) (i : QueuedJob)
    → lookup k m ≡ some i
    → is_pending i.status ≡ false
    → scan m (k ∷ ks) ≡ scan m ks
unfolding scan
scan_skip m k ks i e p = ground arith

scan_hit :
    (m : Jobs) (ids : List Text) (id : Text) (j : QueuedJob)
    → scan m ids ≡ hit id j
    → (lookup id m ≡ some j) × (is_pending j.status ≡ true)
unfolding scan
scan_hit m [] id j h = cc
scan_hit m (k ∷ ks) id j h = elim (Option-cases (lookup k m)) [
  | inl e ↦ ground arith
  | inr (i, e) ↦ elim (Bool-cases (is_pending i.status)) [
    | inl p ↦ ground arith
    | inr p ↦ scan_hit m ks id j (sym (scan_skip m k ks i e p) ∙ h)
  ]
]

submit-Change :
    (id : Text) (now : Time) (spec : JobSpec) (q : JobQueue)
    → lookup id q.jobs ≡ none
    → Change q (or_same (enqueue id now spec q) q)
unfolding enqueue
submit-Change id now spec q fresh = elim (Bool-cases (leb q.max_jobs (length q.jobs))) [
  | inl full ↦ rw full same
  | inr room ↦ rw room (added id (pending_job id spec now) refl fresh (ground arith))
]

spares_pending :
    (id : Text) (g : QueuedJob → QueuedJob) (m : Jobs) (i : QueuedJob)
    → lookup id m ≡ some i
    → is_cancelled i.status ≡ false
    → SparesCancelled id g m
spares_pending id g m i e live j h c = ground arith

pending_not_cancelled : (s : JobStatus) → is_pending s ≡ true → is_cancelled s ≡ false
pending_not_cancelled pending h = refl
pending_not_cancelled running h = refl
pending_not_cancelled completed h = refl
pending_not_cancelled failed h = refl
pending_not_cancelled cancelled h = cc

active_not_cancelled : (s : JobStatus) → is_terminal s ≡ false → is_cancelled s ≡ false
active_not_cancelled pending h = refl
active_not_cancelled running h = refl
active_not_cancelled completed h = refl
active_not_cancelled failed h = refl
active_not_cancelled cancelled h = cc

Scan-cases :
    (s : Scan)
    → (s ≡ none_pending) ⊎ ((s ≡ nil_job) ⊎ ((id : Text) × (j : QueuedJob) × (s ≡ hit id j)))
Scan-cases none_pending = inl refl
Scan-cases nil_job = inr (inl refl)
Scan-cases (hit id j) = inr (inr (id, j, refl))

start-Change :
    (now : Time) (ctx : ℕ) (q : JobQueue) → Change q (started_queue (take_pending now ctx q) q)
unfolding take_pending
start-Change now ctx q = elim (Scan-cases (scan q.jobs q.order)) [
  | inl e ↦ rw (e, started_queue, take_pending) same
  | inr (inl e) ↦ rw (e, started_queue, take_pending) same
  | inr (inr (id, j, e)) ↦
      rw (e, started_queue, take_pending)
        (altered id (start_job now ctx) (λ i. refl)
          (spares_pending id (start_job now ctx) q.jobs j (scan_hit q.jobs q.order id j e).0
            (pending_not_cancelled j.status (scan_hit q.jobs q.order id j e).1)))
]

stop-Change : (id : Text) (now : Time) (q : JobQueue) → Change q (stopped_queue (cancel id now q) q)
unfolding cancel
stop-Change id now q = elim (Option-cases (lookup id q.jobs)) [
  | inl e ↦ rw (e, stopped_queue, cancel) same
  | inr (j, e) ↦ elim (Bool-cases (is_terminal j.status)) [
    | inl t ↦ rw (e, t, stopped_queue, cancel) same
    | inr t ↦
        rw (e, t, stopped_queue, cancel)
          (altered id (cancel_job now) (λ i. refl)
            (spares_pending id (cancel_job now) q.jobs j e (active_not_cancelled j.status t)))
  ]
]

finish-Change :
    (id : Text) (now : Time) (result : DashboardState) (q : JobQueue)
    → Change q (complete id now result q)
unfolding complete
finish-Change id now result q =
    altered id (complete_job now result) (λ j. ground arith) (λ j h c. rw c refl)

abort-Change :
    (id : Text) (now : Time) (error : Text) (q : JobQueue) → Change q (fail id now error q)
unfolding fail
abort-Change id now error q =
    altered id (fail_job now error) (λ j. ground arith) (λ j h c. rw c refl)

pub step-Change : (c : Call) (q : JobQueue) → IsFresh c q → Change q (step c q)
unfolding step
step-Change (submit id now spec) q fresh = submit-Change id now spec q fresh
step-Change (start now ctx) q fresh = start-Change now ctx q
step-Change (finish id now result) q fresh = finish-Change id now result q
step-Change (abort id now error) q fresh = abort-Change id now error q
step-Change (stop id now) q fresh = stop-Change id now q
