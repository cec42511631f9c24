-- ===== src/Distributed/Master/Dispatch.antt =====
-- internal/distributed/master.go: the check of the workers before a run, and the attempts of dispatch.
use mathlib.Core.Path.{subst}
use perf_loadgen.Base.{
  ℕ, zero, suc, ◌<◌, ◌≤◌, ◌≡◌, ◌≢◌, leb, is_empty, true, refl, ap, ◌∙◌, ◌↔◌, ◌⊎◌, inl, inr, false,
  ◌&&◌, List, [], ◌∷◌, none, arith, All, Bool-cases, Option-cases, Text, le64, is_pos64, codes,
  ◌++◌, Result, ok, err,
}
use perf_loadgen.Distributed.{WorkerHealth, WorkerResult, JobRequest}
use perf_loadgen.Distributed.Master.{
  Network, Outgoing, Answer, Sent, unbuilt, unanswered, answered, bad_status, Verdict, stop, retry,
  success, health_check, check_worker, check_workers, judge, attempts, dispatch, run_request,
}

module _ (net : Network) where
  -- The worker answers its health check and has room, or says that it has no capacity at all.
  abbrev pub Ready : Text → Type 0
  Ready address =
      (h : WorkerHealth) × (health_check net address ≡ ok h)
      × ((le64 h.capacity h.active_jobs && is_pos64 h.capacity) ≡ false)

  Result-cases : {E A : Type 0} (r : Result E A) → ((e : E) × (r ≡ err e)) ⊎ ((a : A) × (r ≡ ok a))
  Result-cases (err e) = inl (e, refl)
  Result-cases (ok a) = inr (a, refl)

  check_worker-Ready : (address : Text) → (check_worker net address).1 ≡ none → Ready address
  unfolding check_worker
  check_worker-Ready address h = elim (Result-cases (health_check net address)) [
    | inl (e, failed) ↦ ground (arith, failed)
    | inr (w, reached) ↦ elim (Bool-cases (le64 w.capacity w.active_jobs && is_pos64 w.capacity)) [
      | inl full ↦ ground (arith, reached, full)
      | inr room ↦ (w, reached, room)
    ]
  ]

  Ready-check_worker : (address : Text) → Ready address → (check_worker net address).1 ≡ none
  unfolding check_worker
  Ready-check_worker address (w, reached, room) = ground (arith, reached, room)

  check_workers_sound :
      (workers : List Text) → (check_workers net workers).1 ≡ none → All Ready workers
  unfolding check_workers
  check_workers_sound [] h = tt
  check_workers_sound (a ∷ workers) h = elim (Option-cases (check_worker net a).1) [
    | inl fine ↦ (check_worker-Ready a fine, check_workers_sound workers (ground (arith, fine)))
    | inr (e, failed) ↦ ground (arith, failed)
  ]

  check_workers_complete :
      (workers : List Text) → All Ready workers → (check_workers net workers).1 ≡ none
  unfolding check_workers
  check_workers_complete [] a = refl
  check_workers_complete (w ∷ workers) (ready, rest) =
      ground (arith, Ready-check_worker w ready, check_workers_complete workers rest)

  -- CheckWorkers returns no error exactly when every worker answers its health check and is either
  -- below its capacity or reports a capacity of 0 or less, as a worker does that shuts down.
  pub check_workers_iff :
      (workers : List Text) → ((check_workers net workers).1 ≡ none) ↔ All Ready workers
  check_workers_iff workers = (check_workers_sound workers, check_workers_complete workers)

  -- The worker answers with a status below 300 and a result that reports no error.
  abbrev pub Succeeds : Sent → WorkerResult → Type 0
  Succeeds sent r =
      (a : Answer) × (sent ≡ answered a)
      × (a.status_code < 300)
      × (net.decode_result a.body ≡ ok r)
      × (r.error ≡ [])

  -- What is wrong with an answer: its status, its body, or the error that the worker reports.
  abbrev pub IsBad : Answer → Type 0
  IsBad a =
      (300 ≤ a.status_code)
      ⊎ (((e : Text) × (net.decode_result a.body ≡ err e))
          ⊎ ((r : WorkerResult) × (net.decode_result a.body ≡ ok r) × (r.error ≢ [])))

  -- There is no answer, or a bad one.
  abbrev pub Fails : Sent → Type 0
  Fails sent = ((e : Text) × (sent ≡ unanswered e)) ⊎ ((a : Answer) × (sent ≡ answered a) × IsBad a)

  -- One of the next attempts succeeds, and each before it fails with the context still alive.
  pub data Delivered (request : Outgoing) (r : WorkerResult) : ℕ → ℕ → Type 0 where
    now :
        {fuel attempt : ℕ}
        → Succeeds (net.exchange attempt request) r
        → Delivered request r (suc fuel) attempt
    later :
        {fuel attempt : ℕ}
        → Fails (net.exchange attempt request)
        → net.cancelled attempt ≡ none
        → Delivered request r fuel (suc attempt)
        → Delivered request r (suc fuel) attempt

  error-cases : (e : Text) → ((is_empty e ≡ true) × (e ≡ [])) ⊎ ((is_empty e ≡ false) × (e ≢ []))
  error-cases [] = inl (refl, refl)
  error-cases (c ∷ e) = inr (refl, λ h. cc)

  abbrev refused : Text → Answer → Text
  refused address a = codes "worker " ++ address ++ codes " returned " ++ bad_status a

  abbrev complained : Text → WorkerResult → Text
  complained address r = codes "worker " ++ address ++ codes " failed: " ++ r.error

  -- What `judge` makes of an answer.
  answer-cases :
      (address : Text) (a : Answer)
      → ((r : WorkerResult) × (judge net address (answered a) ≡ success r)
          × Succeeds (answered a) r)
        ⊎ ((e : Text) × (judge net address (answered a) ≡ retry e) × IsBad a)
  unfolding judge
  answer-cases address a = elim (Bool-cases (leb 300 a.status_code)) [
    | inl high ↦ inr (refused address a, ground (arith, high), inl (ground (arith, high)))
    | inr low ↦ elim (Result-cases (net.decode_result a.body)) [
      | inl (e, bad) ↦ inr (e, ground (arith, low, bad), inr (inl (e, bad)))
      | inr (r, fine) ↦ elim (error-cases r.error) [
        | inl (t, none_reported) ↦
            inl
              (r, ground (arith, low, fine, t), (a, refl, ground (arith, low), fine, none_reported))
        | inr (t, reported) ↦
            inr (complained address r, ground (arith, low, fine, t), inr (inr (r, fine, reported)))
      ]
    ]
  ]

  judge_success :
      (address : Text) (sent : Sent) (r : WorkerResult)
      → judge net address sent ≡ success r
      → Succeeds sent r
  unfolding judge
  judge_success address (unbuilt e) r h = cc
  judge_success address (unanswered e) r h = cc
  judge_success address (answered a) r h = elim (answer-cases address a) [
    | inl (s, e, v) ↦ let same : s ≡ r = cc in subst (Succeeds (answered a)) same v
    | inr (m, e, bad) ↦ cc
  ]

  judge_retry :
      (address : Text) (sent : Sent) (e : Text) → judge net address sent ≡ retry e → Fails sent
  unfolding judge
  judge_retry address (unbuilt e) m h = cc
  judge_retry address (unanswered e) m h = inl (e, refl)
  judge_retry address (answered a) m h = elim (answer-cases address a) [
    | inl (s, e, v) ↦ cc
    | inr (n, e, bad) ↦ inr (a, refl, bad)
  ]

  Verdict-cases :
      (v : Verdict)
      → ((e : Text) × (v ≡ stop e))
        ⊎ (((e : Text) × (v ≡ retry e)) ⊎ ((r : WorkerResult) × (v ≡ success r)))
  Verdict-cases (stop e) = inl (e, refl)
  Verdict-cases (retry e) = inr (inl (e, refl))
  Verdict-cases (success r) = inr (inr (r, refl))

  Succeeds-judge :
      (address : Text) (sent : Sent) (r : WorkerResult)
      → Succeeds sent r
      → judge net address sent ≡ success r
  unfolding judge
  Succeeds-judge address sent r (a, e, low, fine, unreported) =
      rw e (ground (arith, low, fine, unreported))

  bad-judge :
      (address : Text) (a : Answer)
      → IsBad a
      → (m : Text) × (judge net address (answered a) ≡ retry m)
  unfolding judge
  bad-judge address a (inl high) = (refused address a, ground arith)
  bad-judge address a (inr bad) = elim (Bool-cases (leb 300 a.status_code)) [
    | inl high ↦ (refused address a, ground (arith, high))
    | inr low ↦ elim bad [
      | inl (e, undecoded) ↦ (e, ground (arith, low, undecoded))
      | inr (r, fine, reported) ↦ elim (error-cases r.error) [
        | inl (t, unreported) ↦ absurd (reported unreported)
        | inr (t, _) ↦ (complained address r, ground (arith, low, fine, t))
      ]
    ]
  ]

  Fails-judge :
      (address : Text) (sent : Sent) → Fails sent → (m : Text) × (judge net address sent ≡ retry m)
  unfolding judge
  Fails-judge address sent (inl (m, e)) = (m, rw e refl)
  Fails-judge address sent (inr (a, e, bad)) = rw e (bad-judge address a bad)

  attempts_sound :
      (address : Text) (request : Outgoing) (fuel attempt : ℕ) (last : Text) (r : WorkerResult)
      → attempts net address request fuel attempt last ≡ ok r
      → Delivered request r fuel attempt
  unfolding attempts
  attempts_sound address request zero attempt last r h = cc
  attempts_sound address request (suc fuel) attempt last r h =
      elim (Verdict-cases (judge net address (net.exchange attempt request))) [
        | inl (e, v) ↦ ground (arith, v)
        | inr (inr (s, v)) ↦ now (judge_success address _ r (v ∙ ap success (found s v)))
        | inr (inl (e, v)) ↦ elim (Option-cases (net.cancelled attempt)) [
          | inr (c, ended) ↦ ground (arith, v, ended)
          | inl alive ↦
              later (judge_retry address _ e v) alive
                (attempts_sound address request fuel (suc attempt) e r (ground (arith, v, alive)))
        ]
      ]
    where
      found :
          (s : WorkerResult) → judge net address (net.exchange attempt request) ≡ success s → s ≡ r
      found s v = ground (arith, v)

  attempts_complete :
      (address : Text) (request : Outgoing) (fuel attempt : ℕ) (last : Text) (r : WorkerResult)
      → Delivered request r fuel attempt
      → attempts net address request fuel attempt last ≡ ok r
  unfolding attempts
  attempts_complete address request zero attempt last r d = elim d [ ]
  attempts_complete address request (suc fuel) attempt last r (now v) =
      ground (arith, Succeeds-judge address _ r v)
  attempts_complete address request (suc fuel) attempt last r (later v alive more) =
      let (e, again) = Fails-judge address _ v in
      ground (arith, again, alive, attempts_complete address request fuel (suc attempt) e r more)

  -- Once the job is encoded, dispatch returns a worker's result exactly when one of its three
  -- attempts is answered with a status below 300 and this result without an error in it, and every
  -- attempt before that one got no answer, or one with a status from 300 on, a body that cannot be
  -- decoded or an error in the result, while the context was alive.
  pub dispatch_iff :
      (secret address payload : Text) (job : JobRequest) (r : WorkerResult)
      → net.encode_job job ≡ ok payload
      → (dispatch net secret address job ≡ ok r)
        ↔ Delivered (run_request net address secret job.job_id payload) r 3 0
  unfolding dispatch
  dispatch_iff secret address payload job r encoded = (
    λ h.
        attempts_sound address (run_request net address secret job.job_id payload) 3 0 [] r
          (ground (arith, encoded)),
    λ d.
        rw (encoded, dispatch)
          (attempts_complete address (run_request net address secret job.job_id payload) 3 0 [] r
            d),
  )
