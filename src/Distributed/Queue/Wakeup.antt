-- ===== src/Distributed/Queue/Wakeup.antt =====
-- internal/distributed/queue.go and the loop of StartBackground in internal/distributed/master.go:
-- one processor that looks for a job and sleeps on the queue's channel, among clients, until its
-- context or the master ends it.
use mathlib.Core.Path.{subst}
use perf_loadgen.Base.{
  ℕ, true, false, List, [], ◌∷◌, none, some, ◌≡◌, refl, ap, ◌∙◌, length, leb, ◌⊎◌, inl, inr,
  Bool-cases, Option-cases, Text, text_eq, Time, Int64, lookup, modify,
}
use perf_loadgen.Distributed.{running}
use perf_loadgen.Distributed.Queue.{
  QueuedJob, JobQueue, new, is_terminal, enqueue, take_pending, complete, complete_job, fail,
  fail_job, cancel, cancel_job,
}
use perf_loadgen.Distributed.Queue.Order.{waiting, remove, IsWellFormed, Ends, waiting-modify}
use perf_loadgen.Distributed.Queue.Fifo.{
  Takes, take_pending-waiting, cancel_job-Ends, complete_job-Ends, fail_job-Ends,
}
use perf_loadgen.Distributed.Queue.Lifecycle.{
  Call, submit, start, finish, abort, stop, step, stopped_queue, IsFresh, step-Change,
}
use perf_loadgen.Distributed.Queue.Invariant.{new-IsWellFormed, Change-IsWellFormed}

-- Where the processor is: in a pass over the order, waiting for a token, outside Dequeue, or gone.
pub data Phase : Type 0 where
  looking asleep busy gone : Phase

pub record System : Type 0 where
  pub queue : JobQueue
  pub phase : Phase

-- Only the processor dequeues.
abbrev pub IsClient : Call → Type 0
IsClient (start now ctx) = ⊥
IsClient _ = Unit {0}

pub data Moves (s : System) : System → Type 0 where
  client :
      (c : Call) → IsClient c → IsFresh c s.queue → Moves s (record s { queue = step c s.queue })
  found :
      (now : Time) (ctx : ℕ) (j : QueuedJob) (r : JobQueue)
      → s.phase ≡ looking
      → take_pending now ctx s.queue ≡ some (j, r)
      → Moves s (record s { queue = r; phase = busy })
  missed :
      (now : Time) (ctx : ℕ)
      → s.phase ≡ looking
      → take_pending now ctx s.queue ≡ none
      → Moves s (record s { phase = asleep })
  woken :
      s.phase ≡ asleep
      → s.queue.signal ≡ true
      → Moves s (record s { queue = record s.queue { signal = false }; phase = looking })
  again : s.phase ≡ busy → Moves s (record s { phase = looking })
  -- By `ctx.Done()` or `stopCh`, in the wait of Dequeue or between two jobs.
  leaves : (s.phase ≡ asleep) ⊎ (s.phase ≡ busy) → Moves s (record s { phase = gone })

-- A new queue, with the processor about to look.
abbrev pub initial : Int64 → System
initial n = record { queue = new n; phase = looking }

-- The states that a system can come to.
pub data Continues (s : System) : System → Type 0 where
  stays : Continues s s
  moves : {t u : System} → Continues s t → Moves t u → Continues s u

abbrev pub Runs : Int64 → System → Type 0
Runs n s = Continues (initial n) s

-- A sleeper has nothing to do, or a token to take.
abbrev Wakes : JobQueue → Type 0
Wakes q = (waiting q.jobs ≡ []) ⊎ (q.signal ≡ true)

Wakes-modify :
    (id : Text) (g : QueuedJob → QueuedJob) (q : JobQueue)
    → Ends g
    → IsWellFormed q
    → Wakes q
    → Wakes (record q { jobs = modify id g q.jobs })
Wakes-modify id g q e w (inl idle) =
    inl (waiting-modify id g q.jobs e w.distinct ∙ ap (remove id) idle)
Wakes-modify id g q e w (inr token) = inr token

stop-Wakes :
    (id : Text) (now : Time) (q : JobQueue)
    → IsWellFormed q
    → Wakes q
    → Wakes (stopped_queue (cancel id now q) q)
unfolding cancel
stop-Wakes id now q w h = elim (Option-cases (lookup id q.jobs)) [
  | inl e ↦ rw (e, stopped_queue, cancel) h
  | inr (j, e) ↦ elim (Bool-cases (is_terminal j.status)) [
    | inl t ↦ rw (e, t, stopped_queue, cancel) h
    | inr t ↦
        rw (e, t, stopped_queue, cancel)
          (Wakes-modify id (cancel_job now) q (cancel_job-Ends now) w h)
  ]
]

step-Wakes : (c : Call) (q : JobQueue) → IsClient c → IsWellFormed q → Wakes q → Wakes (step c q)
unfolding step enqueue complete fail
step-Wakes (submit id now spec) q own w h = elim (Bool-cases (leb q.max_jobs (length q.jobs))) [
  | inl full ↦ rw full h
  | inr room ↦ rw room (inr refl)
]
step-Wakes (start now ctx) q own w h = absurd own
step-Wakes (finish id now result) q own w h =
    Wakes-modify id (complete_job now result) q (complete_job-Ends now result) w h
step-Wakes (abort id now error) q own w h =
    Wakes-modify id (fail_job now error) q (fail_job-Ends now error) w h
step-Wakes (stop id now) q own w h = stop-Wakes id now q w h

step_start :
    (now : Time) (ctx : ℕ) (q r : JobQueue) (j : QueuedJob)
    → take_pending now ctx q ≡ some (j, r)
    → step (start now ctx) q ≡ r
unfolding step
step_start now ctx q r j h = rw h refl

Moves-IsWellFormed : (s t : System) → Moves s t → IsWellFormed s.queue → IsWellFormed t.queue
Moves-IsWellFormed s _ (client c own fresh) w =
    Change-IsWellFormed s.queue (step c s.queue) (step-Change c s.queue fresh) w
Moves-IsWellFormed s _ (found now ctx j r at h) w =
    subst IsWellFormed (step_start now ctx s.queue r j h) (
      Change-IsWellFormed s.queue (step (start now ctx) s.queue)
        (step-Change (start now ctx) s.queue tt) w)
Moves-IsWellFormed s _ (missed now ctx at h) w = w
Moves-IsWellFormed s _ (woken at h) w = record {
  ordered = w.ordered;
  distinct = w.distinct;
  named = w.named;
  bounded = w.bounded;
}
Moves-IsWellFormed s _ (again at) w = w
Moves-IsWellFormed s _ (leaves at) w = w

Runs-IsWellFormed : (n : Int64) (s : System) → Runs n s → IsWellFormed s.queue
Runs-IsWellFormed n _ stays = new-IsWellFormed n
Runs-IsWellFormed n _ (moves {t = s} {u = t} before m) =
    Moves-IsWellFormed s t m (Runs-IsWellFormed n s before)

Takes-none :
    (now : Time) (ctx : ℕ) (q : JobQueue) (ids : List Text)
    → take_pending now ctx q ≡ none
    → Takes now ctx q ids
    → ids ≡ []
Takes-none now ctx q [] h t = refl
Takes-none now ctx q (id ∷ ids) h (j, r, took, named, runs, ctx_kept, kept, more) = cc

-- What holds of a sleeper; the other phases promise nothing.
abbrev Rests : Phase → JobQueue → Type 0
Rests asleep q = Wakes q
Rests _ q = Unit {0}

Rests-any : (p : Phase) (q : JobQueue) → Wakes q → Rests p q
Rests-any looking q h = tt
Rests-any asleep q h = h
Rests-any busy q h = tt
Rests-any gone q h = tt

step-Rests :
    (c : Call) (p : Phase) (q : JobQueue)
    → IsClient c
    → IsWellFormed q
    → Rests p q
    → Rests p (step c q)
step-Rests c looking q own w h = tt
step-Rests c asleep q own w h = step-Wakes c q own w h
step-Rests c busy q own w h = tt
step-Rests c gone q own w h = tt

Moves-Rests :
    (s t : System)
    → Moves s t
    → IsWellFormed s.queue
    → Rests s.phase s.queue
    → Rests t.phase t.queue
Moves-Rests s _ (client c own fresh) w h = step-Rests c s.phase s.queue own w h
Moves-Rests s _ (found now ctx j r at e) w h = tt
Moves-Rests s _ (missed now ctx at e) w h =
    inl
      (Takes-none now ctx s.queue (waiting s.queue.jobs) e (take_pending-waiting now ctx s.queue w))
Moves-Rests s _ (woken at e) w h = tt
Moves-Rests s _ (again at) w h = tt
Moves-Rests s _ (leaves at) w h = tt

Runs-Rests : (n : Int64) (s : System) → Runs n s → Rests s.phase s.queue
Runs-Rests n _ stays = tt
Runs-Rests n _ (moves {t = s} {u = t} before m) =
    Moves-Rests s t m (Runs-IsWellFormed n s before) (Runs-Rests n s before)

-- From this state on the processor comes to a state in which it has started the job.
abbrev pub Starts : System → Text → Type 0
Starts s id =
    (t : System) × Continues s t
    × (t.phase ≡ busy)
    × ((j : QueuedJob) × (lookup id t.queue.jobs ≡ some j) × (j.status ≡ running))

awake : System → System
awake s = record s { queue = record s.queue { signal = false }; phase = looking }

take_awake :
    (s : System) (id : Text) (ids : List Text)
    → Moves s (awake s)
    → Takes 0 0 (awake s).queue (id ∷ ids)
    → Starts s id
unfolding awake
take_awake s id ids wakes (j, r, took, named, runs, holds, kept, more) = (
  record { queue = r; phase = busy },
  moves (moves stays wakes) (found 0 0 j r refl took),
  refl,
  (j, kept, runs),
)

sleeping :
    (s : System) (id : Text) (ids : List Text)
    → Wakes s.queue
    → waiting s.queue.jobs ≡ id ∷ ids
    → s.queue.signal ≡ true
sleeping s id ids (inl idle) has = cc
sleeping s id ids (inr token) has = token

-- No wakeup is lost: in every state that a new queue comes to, where submissions have fresh ids and
-- one processor dequeues, in which the processor sleeps and a job waits, a token is there to wake it
-- up, and a continuation of that very state starts the job that has waited longest.
pub Runs-Starts :
    (n : Int64) (s : System) (id : Text) (ids : List Text)
    → Runs n s
    → s.phase ≡ asleep
    → waiting s.queue.jobs ≡ id ∷ ids
    → (s.queue.signal ≡ true) × Starts s id
unfolding awake
Runs-Starts n s id ids before at has =
    let token = sleeping s id ids (subst (λ p. Rests p s.queue) at (Runs-Rests n s before)) has in
    let next = moves before (woken at token) in
    (
      token,
      take_awake s id ids (woken at token) (
          subst (Takes 0 0 (awake s).queue) has
            (take_pending-waiting 0 0 (awake s).queue (Runs-IsWellFormed n (awake s) next))),
    )
