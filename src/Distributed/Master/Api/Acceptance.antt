-- ===== src/Distributed/Master/Api/Acceptance.antt =====
-- internal/distributed/master.go, handleJobs: which requests put a job into the queue.
use mathlib.Core.Path.{subst}
use perf_loadgen.Base.{
  ◌≡◌, ◌≢◌, refl, sym, ap, ◌∙◌, ◌⊎◌, inl, inr, ◌<◌, true, false, List, [], ◌∷◌, Option, none, some,
  arith, length, leb, Bool-cases, Option-cases, ◌==◌, Text, codes, text_eq, text_beq_iff, Time,
  Floats, Result, ok, err,
}
use perf_loadgen.Config.{ConfigError, Urls, validate}
use perf_loadgen.Config.Validity.{IsValid, validate_iff}
use perf_loadgen.Distributed.{JobSpec}
use perf_loadgen.Distributed.Queue.{JobQueue, QueueError, enqueue}
use perf_loadgen.Distributed.Auth.{Request}
use perf_loadgen.Distributed.Master.Api.{
  Reply, accepted, no_workers, bad_config, unavailable, submit, handle_jobs,
}

-- What a job must be for the master to accept it.
pub record Acceptable (f : Floats) (u : Urls) (r : Request) (body : Option JobSpec) (q : JobQueue)
    : Type 0 where
  pub posted : r.method ≡ codes "POST"
  pub spec : JobSpec
  pub decoded : body ≡ some spec
  pub valid : IsValid f u spec.config
  pub some_workers : spec.workers ≢ []
  pub room : length q.jobs < q.max_jobs

-- The job is in the queue, or nothing has changed.
abbrev pub Answers :
    (f : Floats) (u : Urls) (r : Request) (body : Option JobSpec) (id : Text) (now : Time)
    → JobQueue
    → Reply × JobQueue
    → Type 0
Answers f u r body id now q (reply, after) =
    ((a : Acceptable f u r body q) × (reply ≡ accepted id) × (enqueue id now a.spec q ≡ ok after))
    ⊎ (¬ Acceptable f u r body q × (after ≡ q))

module _ (f : Floats) (u : Urls) (r : Request) (id : Text) (now : Time) (q : JobQueue) where
  -- The queue is as it was, and the request is not acceptable.
  unchanged :
      (body : Option JobSpec) (out : Reply × JobQueue)
      → ¬ Acceptable f u r body q
      → out.1 ≡ q
      → Answers f u r body id now q out
  unchanged body (reply, after) never e = inr (never, e)

  Outcome-cases :
      (o : Result QueueError JobQueue)
      → ((e : QueueError) × (o ≡ err e)) ⊎ ((after : JobQueue) × (o ≡ ok after))
  Outcome-cases (err e) = inl (e, refl)
  Outcome-cases (ok after) = inr (after, refl)

  enqueue_full :
      (spec : JobSpec) (e : QueueError)
      → enqueue id now spec q ≡ err e
      → ¬ (length q.jobs < q.max_jobs)
  unfolding enqueue
  enqueue_full spec e h room = ground arith

  enqueue_room :
      (spec : JobSpec) (after : JobQueue)
      → enqueue id now spec q ≡ ok after
      → length q.jobs < q.max_jobs
  unfolding enqueue
  enqueue_room spec after h = elim (Bool-cases (leb q.max_jobs (length q.jobs))) [
    | inl full ↦ ground arith
    | inr room ↦ ground arith
  ]

  submitted :
      (spec : JobSpec) (after : JobQueue)
      → enqueue id now spec q ≡ ok after
      → submit f u id now spec q ≡ (accepted id, after)
  submitted spec after e =
      ap (λ o. elim o [ err x ↦ (unavailable x, q) | ok y ↦ (accepted id, y) ]) e

  turned_away :
      (spec : JobSpec) (x : QueueError)
      → enqueue id now spec q ≡ err x
      → submit f u id now spec q ≡ (unavailable x, q)
  turned_away spec x e = ap (λ o. elim o [ err y ↦ (unavailable y, q) | ok y ↦ (accepted id, y) ]) e

  submit-Answers :
      (spec : JobSpec)
      → r.method ≡ codes "POST"
      → IsValid f u spec.config
      → spec.workers ≢ []
      → Answers f u r (some spec) id now q (submit f u id now spec q)
  submit-Answers spec post valid workers = elim (Outcome-cases (enqueue id now spec q)) [
    | inl (x, e) ↦
        unchanged (some spec) (submit f u id now spec q) (λ a. enqueue_full spec x e a.room)
          (ap (λ o. o.1) (turned_away spec x e))
    | inr (after, e) ↦ subst (Answers f u r (some spec) id now q) (sym (submitted spec after e)) (
        inl (
          record {
            posted = post;
            spec = spec;
            decoded = refl;
            valid = valid;
            some_workers = workers;
            room = enqueue_room spec after e;
          },
          refl,
          e,
        ))
  ]

  same_spec : (spec : JobSpec) (a : Acceptable f u r (some spec) q) → a.spec ≡ spec
  same_spec spec a = let e = a.decoded in cc

  no_error :
      (spec : JobSpec) (a : Acceptable f u r (some spec) q) (e : ConfigError)
      → ¬ (validate f u spec.config ≡ some e)
  no_error spec a e bad =
      let valid = subst (λ s. IsValid f u s.config) (same_spec spec a) a.valid in
      let passed = (validate_iff f u spec.config).1 valid in cc

  without_workers : (spec : JobSpec) (a : Acceptable f u r (some spec) q) → ¬ (spec.workers ≡ [])
  without_workers spec a e = a.some_workers (ap (λ s. s.workers) (same_spec spec a) ∙ e)

  List-cases : {A : Type 0} (xs : List A) → (xs ≡ []) ⊎ ((x : A) × (ys : List A) × (xs ≡ x ∷ ys))
  List-cases [] = inl refl
  List-cases (x ∷ xs) = inr (x, xs, refl)

  post : r.method ≡ codes "POST" → (r.method == codes "POST") ≡ true
  post e = (text_beq_iff r.method (codes "POST")).1 e

  posted_bad :
      (spec : JobSpec) (e : ConfigError)
      → (r.method == codes "POST") ≡ true
      → validate f u spec.config ≡ some e
      → handle_jobs f u r (some spec) id now q ≡ (bad_config e, q)
  unfolding handle_jobs
  posted_bad spec e p bad = rw (p, bad, handle_jobs) refl

  posted_idle :
      (spec : JobSpec)
      → (r.method == codes "POST") ≡ true
      → validate f u spec.config ≡ none
      → spec.workers ≡ []
      → handle_jobs f u r (some spec) id now q ≡ (no_workers, q)
  unfolding handle_jobs
  posted_idle spec p valid idle = rw (p, valid, idle, handle_jobs) refl

  posted_fine :
      (spec : JobSpec) (w : Text) (ws : List Text)
      → (r.method == codes "POST") ≡ true
      → validate f u spec.config ≡ none
      → spec.workers ≡ w ∷ ws
      → handle_jobs f u r (some spec) id now q ≡ submit f u id now spec q
  unfolding handle_jobs
  posted_fine spec w ws p valid given = ground (arith, p, valid, given)

  not_posted :
      (body : Option JobSpec)
      → (r.method == codes "POST") ≡ false
      → (handle_jobs f u r body id now q).1 ≡ q
  unfolding handle_jobs
  not_posted body p =
      rw (p, handle_jobs)
        (elim (Bool-cases (r.method == codes "GET")) [ inl g ↦ rw g refl | inr g ↦ rw g refl ])

  undecoded : (r.method == codes "POST") ≡ true → (handle_jobs f u r none id now q).1 ≡ q
  unfolding handle_jobs
  undecoded p = rw (p, handle_jobs) refl

  posted-Answers :
      (spec : JobSpec)
      → (r.method == codes "POST") ≡ true
      → Answers f u r (some spec) id now q (handle_jobs f u r (some spec) id now q)
  posted-Answers spec p = elim (Option-cases (validate f u spec.config)) [
    | inr (e, bad) ↦
        unchanged (some spec) (handle_jobs f u r (some spec) id now q) (λ a. no_error spec a e bad)
          (ap (λ o. o.1) (posted_bad spec e p bad))
    | inl valid ↦ elim (List-cases spec.workers) [
      | inl idle ↦
          unchanged (some spec) (handle_jobs f u r (some spec) id now q)
            (λ a. without_workers spec a idle) (ap (λ o. o.1) (posted_idle spec p valid idle))
      | inr (w, ws, given) ↦
          subst (Answers f u r (some spec) id now q) (sym (posted_fine spec w ws p valid given)) (
            submit-Answers spec ((text_beq_iff r.method (codes "POST")).0 p)
              ((validate_iff f u spec.config).0 valid) (λ idle. cc))
    ]
  ]

  -- A request to /api/jobs puts its job into the queue and answers with the job's id exactly when
  -- it is a POST of a decodable, valid configuration with at least one worker and the queue has
  -- room; otherwise the queue stays as it is.
  pub handle_jobs_lem :
      (body : Option JobSpec) → Answers f u r body id now q (handle_jobs f u r body id now q)
  handle_jobs_lem body = elim (Bool-cases (r.method == codes "POST")) [
    | inr other ↦
        unchanged body (handle_jobs f u r body id now q) (λ a. let p = post a.posted in cc)
          (not_posted body other)
    | inl p ↦ elim (Option-cases body) [
      | inl nothing ↦ rw nothing (
          unchanged none (handle_jobs f u r none id now q) (λ a. let e = a.decoded in cc)
            (undecoded p))
      | inr (spec, e) ↦ rw e (posted-Answers spec p)
    ]
  ]
