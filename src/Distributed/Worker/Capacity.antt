-- ===== src/Distributed/Worker/Capacity.antt =====
-- internal/distributed/worker.go: the jobs that run at the same time on one worker.
use mathlib.Core.Path.{subst}
use perf_loadgen.Base.{
  ℕ, ◌≤◌, ◌<◌, ◌≡◌, refl, sym, ap, ◌∙◌, inl, inr, List, [], ◌∷◌, ◌++◌, map, none, some, arith, leb,
  nat_eq, Bool-cases, length, length-map, length-append, Text, text_eq, Int64, Time, lookup, put,
  put_fresh, delete, keys, AreDistinct, append-AreDistinct, delete-AreDistinct, length-delete, ok,
  err, two63,
}
use perf_loadgen.Distributed.Worker.{
  Worker, new, accept, give_up, finish, shutdown, Refusal, at_capacity,
}
use perf_loadgen.Distributed.Worker

-- A worker and the handlers that run a job: the context and the job's id of each.
pub record Site : Type 0 where
  pub worker : Worker
  pub active : List (ℕ × Text)

-- What can happen under the lock, where no running job has the id of a new one.
pub data Moves (s : Site) : Site → Type 0 where
  admitted :
      (id : Text) (ctx : ℕ) (w : Worker)
      → lookup id s.worker.jobs ≡ none
      → lookup ctx s.active ≡ none
      → accept id ctx s.worker ≡ ok w
      → Moves s (record { worker = w; active = s.active ++ (ctx, id) ∷ [] })
  finished :
      (id : Text) (ctx : ℕ) (now : Time)
      → lookup ctx s.active ≡ some id
      → Moves s (record { worker = finish id now s.worker; active = delete ctx s.active })
  unbuilt :
      (id : Text) (ctx : ℕ) (now : Time)
      → lookup ctx s.active ≡ some id
      → Moves s (record { worker = give_up id now s.worker; active = delete ctx s.active })
  drained : Moves s (record s { worker = (shutdown s.worker).0 })

pub data Runs (s : Site) : Site → Type 0 where
  here : Runs s s
  then_ : {t u : Site} → Runs s t → Moves t u → Runs s u

abbrev pub swap : ℕ × Text → Text × ℕ
swap (ctx, id) = (id, ctx)

-- The map holds the active handlers, each under its id, and there is room for all of them.
pub record Tracks (limit : ℕ) (s : Site) : Type 0 where
  pub tracked : s.worker.jobs ≡ map swap s.active
  pub ids : AreDistinct s.worker.jobs
  pub contexts : AreDistinct s.active
  pub limited : s.worker.capacity ≤ limit
  pub bounded : length s.worker.jobs ≤ limit

map_append_swap :
    (a : List (ℕ × Text)) (ctx : ℕ) (id : Text)
    → map swap a ++ (id, ctx) ∷ [] ≡ map swap (a ++ (ctx, id) ∷ [])
map_append_swap [] ctx id = refl
map_append_swap (e ∷ a) ctx id = ap (◌∷◌ (swap e)) (map_append_swap a ctx id)

swap_found :
    (a : List (ℕ × Text)) (ctx : ℕ) (id : Text)
    → lookup ctx a ≡ some id
    → ¬ (lookup id (map swap a) ≡ none)
unfolding lookup
swap_found [] ctx id h = cc
swap_found ((c, i) ∷ a) ctx id h = ground (arith, text_eq.beq_iff i id, swap_found a ctx id)

delete-swap :
    (a : List (ℕ × Text)) (ctx : ℕ) (id : Text)
    → lookup ctx a ≡ some id
    → AreDistinct (map swap a)
    → delete id (map swap a) ≡ map swap (delete ctx a)
unfolding lookup delete
delete-swap [] ctx id h d = refl
delete-swap ((c, i) ∷ a) ctx id h (fresh, d) =
    ground
      (arith, nat_eq.beq_iff c ctx, text_eq.beq_iff i id, swap_found a ctx id, delete-swap a ctx id)

accept_room :
    (id : Text) (ctx : ℕ) (w r : Worker)
    → accept id ctx w ≡ ok r
    → (length w.jobs < w.capacity) × (r.jobs ≡ put id ctx w.jobs) × (r.capacity ≡ w.capacity)
unfolding accept
accept_room id ctx w r h = elim (Bool-cases (leb w.capacity (length w.jobs))) [
  | inl full ↦ ground arith
  | inr room ↦ (ground arith, ground arith, ground arith)
]

delete-Tracks :
    (limit : ℕ) (s : Site) (id : Text) (ctx : ℕ) (w : Worker)
    → lookup ctx s.active ≡ some id
    → w.jobs ≡ delete id s.worker.jobs
    → w.capacity ≡ s.worker.capacity
    → Tracks limit s
    → Tracks limit (record { worker = w; active = delete ctx s.active })
delete-Tracks limit s id ctx w found e c t = record {
  tracked =
      e
      ∙ ap (delete id) t.tracked
      ∙ delete-swap s.active ctx id found (subst AreDistinct t.tracked t.ids);
  ids = subst AreDistinct (sym e) (delete-AreDistinct id s.worker.jobs t.ids);
  contexts = delete-AreDistinct ctx s.active t.contexts;
  limited = omega (arith, c, t.limited);
  bounded = omega (arith, ap length e, length-delete id s.worker.jobs, t.bounded);
}

Moves-Tracks : (limit : ℕ) (s t : Site) → Moves s t → Tracks limit s → Tracks limit t
unfolding finish give_up shutdown
Moves-Tracks limit s _ (admitted id ctx w fresh new_ctx h) t =
    let (room, jobs, same) = accept_room id ctx s.worker w h in
    let appended = jobs ∙ put_fresh id ctx s.worker.jobs fresh in
    record {
      tracked =
          appended ∙ ap (λ m. m ++ (id, ctx) ∷ []) t.tracked ∙ map_append_swap s.active ctx id;
      ids = subst AreDistinct (sym appended) (append-AreDistinct id ctx s.worker.jobs t.ids fresh);
      contexts = append-AreDistinct ctx id s.active t.contexts new_ctx;
      limited = omega (arith, same, t.limited);
      bounded = omega (
        arith,
        ap length appended,
        length-append s.worker.jobs ((id, ctx) ∷ []),
        room,
        t.limited,
      );
    }
Moves-Tracks limit s _ (finished id ctx now found) t =
    delete-Tracks limit s id ctx (finish id now s.worker) found refl refl t
Moves-Tracks limit s _ (unbuilt id ctx now found) t =
    delete-Tracks limit s id ctx (give_up id now s.worker) found refl refl t
Moves-Tracks limit s _ drained t = record {
  tracked = t.tracked;
  ids = t.ids;
  contexts = t.contexts;
  limited = omega arith;
  bounded = t.bounded;
}

Runs-Tracks : (limit : ℕ) (s t : Site) → Runs s t → Tracks limit s → Tracks limit t
Runs-Tracks limit s _ here v = v
Runs-Tracks limit s _ (then_ {t} {u} before m) v =
    Moves-Tracks limit t u m (Runs-Tracks limit s t before v)

-- A worker as it was created, before any request.
abbrev pub created : Text → Text → Int64 → Text → Time → Site
created id addr capacity secret now = record {
  worker = Worker.new id addr capacity secret now;
  active = [];
}

created-Tracks :
    (id addr : Text) (capacity : Int64) (secret : Text) (now : Time)
    → 0 < capacity
    → capacity < two63
    → Tracks capacity (created id addr capacity secret now)
unfolding Worker.new
created-Tracks id addr capacity secret now positive word = record {
  tracked = refl;
  ids = tt;
  contexts = tt;
  limited = ground arith;
  bounded = ground arith;
}

-- On a worker with a positive capacity no more jobs run at the same time than the capacity says,
-- and its map holds exactly the jobs that run, as long as no new job has the id of one that runs.
pub Runs-bounded :
    (id addr : Text) (capacity : Int64) (secret : Text) (now : Time) (t : Site)
    → 0 < capacity
    → capacity < two63
    → Runs (created id addr capacity secret now) t
    → (length t.active ≤ capacity) × (t.worker.jobs ≡ map swap t.active)
Runs-bounded id addr capacity secret now t positive word steps =
    let v =
      Runs-Tracks capacity (created id addr capacity secret now) t steps
        (created-Tracks id addr capacity secret now positive word) in
    (omega (arith, ap length v.tracked, length-map swap t.active, v.bounded), v.tracked)

step_zero : (s t : Site) → Moves s t → s.worker.capacity ≡ 0 → t.worker.capacity ≡ 0
unfolding finish give_up shutdown
step_zero s _ (admitted id ctx w fresh new_ctx h) e = (accept_room id ctx s.worker w h).2 ∙ e
step_zero s _ (finished id ctx now found) e = e
step_zero s _ (unbuilt id ctx now found) e = e
step_zero s _ drained e = refl

capacity_stays_zero : (s t : Site) → Runs s t → s.worker.capacity ≡ 0 → t.worker.capacity ≡ 0
capacity_stays_zero s _ here e = e
capacity_stays_zero s _ (then_ {t} {u} before m) e =
    step_zero t u m (capacity_stays_zero s t before e)

-- After Shutdown no request gets a place, whatever happens in between, and Shutdown ends exactly
-- the contexts of the jobs that the map holds.
pub shutdown-accept :
    (s t : Site) (id : Text) (ctx : ℕ)
    → Runs (record s { worker = (shutdown s.worker).0 }) t
    → (accept id ctx t.worker ≡ err (at_capacity (keys t.worker.jobs)))
      × ((shutdown s.worker).1 ≡ map (λ e. e.1) s.worker.jobs)
unfolding accept shutdown
shutdown-accept s t id ctx steps =
    let closed = capacity_stays_zero (record s { worker = (shutdown s.worker).0 }) t steps refl in
    (ground (arith, closed), refl)
