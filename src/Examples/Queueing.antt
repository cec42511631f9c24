-- ===== src/Examples/Queueing.antt =====
-- A job queue of internal/distributed with two jobs.
use perf_loadgen.Base.{
  ◌≡◌, refl, true, [], ◌∷◌, ◌++◌, none, some, arith, length, Text, codes, text_eq, lookup, put,
  modify, ok, err,
}
use perf_loadgen.Config.{empty_config}
use perf_loadgen.Distributed.{JobSpec}
use perf_loadgen.Distributed.Queue.{
  JobQueue, new, pending_job, enqueue, scan, take_pending, cancel_job, cancel, queue_full,
}
use perf_loadgen.Distributed.Queue.Order.{waiting, IsWellFormed}
use perf_loadgen.Distributed.Queue.Fifo.{Takes, take_pending-waiting}
use perf_loadgen.Distributed.Queue.Lifecycle.{submit, start, abort, stop, step, rest, call}
use perf_loadgen.Distributed.Queue.Invariant.{Reaches-IsWellFormed, Reaches-lookup, Reaches-enqueue}
use perf_loadgen.Distributed.Queue.Wakeup.{
  asleep, System, client, missed, Runs, stays, moves, Starts, Runs-Starts,
}

abbrev spec : JobSpec
spec = record { config = empty_config; workers = codes "w1" ∷ [] }

abbrev first : Text
first = codes "job-1"

abbrev second_id : Text
second_id = codes "job-2"

abbrev third : Text
third = codes "job-3"

abbrev both : JobQueue
both = record {
  jobs = (first, pending_job first spec 5) ∷ (second_id, pending_job second_id spec 6) ∷ [];
  order = first ∷ second_id ∷ [];
  max_jobs = 2;
  signal = true;
}

both-IsWellFormed : IsWellFormed both
unfolding lookup
both-IsWellFormed = record {
  ordered = refl;
  distinct = (refl, (refl, tt));
  named = (refl, (refl, tt));
  bounded = omega arith;
}

take_pending-waiting_example : Takes 9 0 both (waiting both.jobs)
take_pending-waiting_example = take_pending-waiting 9 0 both both-IsWellFormed

abbrev roomy : JobQueue
roomy = record both { max_jobs = 5 }

abbrev roomy_after : JobQueue
roomy_after = record roomy {
  jobs = both.jobs ++ (third, pending_job third spec 7) ∷ [];
  order = first ∷ second_id ∷ third ∷ [];
}

third_fresh : lookup third roomy.jobs ≡ none
unfolding lookup
third_fresh = refl

enqueue-eq-ok : enqueue third 7 spec roomy ≡ ok roomy_after
unfolding enqueue put
enqueue-eq-ok = refl

abbrev one_cancelled : JobQueue
one_cancelled = record both {
  jobs =
      (first, cancel_job 8 (pending_job first spec 5))
      ∷ (second_id, pending_job second_id spec 6)
      ∷ [];
}

cancel-eq-ok : cancel first 8 both ≡ ok (one_cancelled, none)
unfolding cancel lookup modify
cancel-eq-ok = refl

first_fresh : lookup first (new 2).jobs ≡ none
unfolding lookup new
first_fresh = refl

abbrev submitted : JobQueue
submitted = step (submit first 5 spec) (new 2)

Reaches-IsWellFormed_example : IsWellFormed (step (start 9 0) submitted)
Reaches-IsWellFormed_example =
    Reaches-IsWellFormed 2 (step (start 9 0) submitted)
      (call (start 9 0) (call (submit first 5 spec) rest first_fresh) tt)

cancelled_found : lookup first one_cancelled.jobs ≡ some (cancel_job 8 (pending_job first spec 5))
unfolding lookup
cancelled_found = refl

Reaches-lookup_example :
    lookup first (step (abort first 20 []) (step (start 9 0) one_cancelled)).jobs
    ≡ some (cancel_job 8 (pending_job first spec 5))
Reaches-lookup_example =
    Reaches-lookup first (cancel_job 8 (pending_job first spec 5)) one_cancelled
      (step (abort first 20 []) (step (start 9 0) one_cancelled)) cancelled_found refl
      (call (abort first 20 []) (call (start 9 0) rest tt) tt)

Reaches-enqueue_example :
    let q = step (stop second_id 21) one_cancelled in
    enqueue third 30 spec q ≡ err (queue_full (length q.jobs) q.max_jobs)
Reaches-enqueue_example =
    Reaches-enqueue third 30 spec one_cancelled (step (stop second_id 21) one_cancelled)
      (omega arith) (call (stop second_id 21) rest tt)

abbrev sleeper : System
sleeper = record { queue = new 2; phase = asleep }

nothing_waits : take_pending 1 0 (new 2) ≡ none
unfolding take_pending scan new
nothing_waits = refl

sleeper-Runs : Runs 2 sleeper
sleeper-Runs = moves stays (missed 1 0 refl nothing_waits)

abbrev roused : System
roused = record { queue = submitted; phase = asleep }

roused_waiting : waiting submitted.jobs ≡ first ∷ []
unfolding step enqueue put new
roused_waiting = refl

Runs-Starts_example : (submitted.signal ≡ true) × Starts roused first
Runs-Starts_example =
    Runs-Starts 2 roused first [] (moves sleeper-Runs (client (submit first 5 spec) tt first_fresh))
      refl roused_waiting
