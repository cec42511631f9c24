-- ===== src/Distributed/Worker/Repeats.antt =====
-- internal/distributed/worker.go: requests that run one job's id again while it still runs.
use perf_loadgen.Base.{
  ℕ, ◌≤◌, ◌≡◌, refl, List, [], ◌∷◌, arith, length, Text, text_eq, put, Result, ok, ◌>>=◌,
}
use perf_loadgen.Distributed.Worker.{Worker, Refusal, accept}

-- Requests for one id, with the contexts of their handlers, none of which has ended.
unfoldable pub accept_all : Text → List ℕ → Worker → Result Refusal Worker
accept_all id [] w = ok w
accept_all id (ctx ∷ ctxs) w = accept id ctx w >>= accept_all id ctxs

-- A map with nothing but the one id.
OnlyId : Text → List (Text × ℕ) → Type 0
OnlyId id [] = Unit {0}
OnlyId id ((i, c) ∷ []) = i ≡ id
OnlyId id ((i, c) ∷ e ∷ m) = ⊥

only_short : (id : Text) (m : List (Text × ℕ)) → OnlyId id m → length m ≤ 1
unfolding OnlyId
only_short id [] h = omega arith
only_short id (e ∷ []) h = omega arith
only_short id (e ∷ d ∷ m) h = absurd h

put-OnlyId : (id : Text) (ctx : ℕ) (m : List (Text × ℕ)) → OnlyId id m → OnlyId id (put id ctx m)
unfolding OnlyId put
put-OnlyId id ctx [] h = refl
put-OnlyId id ctx ((i, c) ∷ []) h = rw ((text_eq.beq_iff i id).1 h) h
put-OnlyId id ctx (e ∷ d ∷ m) h = absurd h

accept_again :
    (id : Text) (ctx : ℕ) (w : Worker)
    → 2 ≤ w.capacity
    → OnlyId id w.jobs
    → accept id ctx w ≡ ok (record w { jobs = put id ctx w.jobs })
unfolding accept
accept_again id ctx w room only = ground (arith, only_short id w.jobs only)

accept_all-OnlyId :
    (id : Text) (ctxs : List ℕ) (w : Worker)
    → 2 ≤ w.capacity
    → OnlyId id w.jobs
    → (r : Worker) × (accept_all id ctxs w ≡ ok r) × (length r.jobs ≤ 1)
unfolding accept_all
accept_all-OnlyId id [] w room only = (w, refl, only_short id w.jobs only)
accept_all-OnlyId id (ctx ∷ ctxs) w room only =
    let next = record w { jobs = put id ctx w.jobs } in
    let (r, e, short) = accept_all-OnlyId id ctxs next room (put-OnlyId id ctx w.jobs only) in
    (r, rw (accept_again id ctx w room only) e, short)

-- The capacity does not bind requests that repeat one id: an idle worker with a capacity of two or
-- more gives a place to any number of them at the same time, and counts one job at most.
pub accept_all_lem :
    (id : Text) (ctxs : List ℕ) (w : Worker)
    → 2 ≤ w.capacity
    → w.jobs ≡ []
    → (r : Worker) × (accept_all id ctxs w ≡ ok r) × (length r.jobs ≤ 1)
unfolding OnlyId
accept_all_lem id ctxs w room idle = accept_all-OnlyId id ctxs w room (rw idle tt)
