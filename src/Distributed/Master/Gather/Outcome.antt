-- ===== src/Distributed/Master/Gather/Outcome.antt =====
-- internal/distributed/master.go, Run: what the gathered results are, in whichever order they arrive.
use mathlib.Core.Path.{subst}
use mathlib.Core.List.{flatten}
use perf_loadgen.Base.{
  ℕ, zero, suc, ◌+◌, ◌<◌, ◌≤◌, ltb, ◌≡◌, refl, sym, ap, ◌∙◌, ◌↔◌, ◌⊎◌, inl, inr, Bool, true, false,
  ◌||◌, List, [], ◌∷◌, map, Option, none, some, arith, length, get_elem?, get_or, set, All,
  Bool-cases, if◌then◌else◌, ◌==◌, nat_eq, nat_beq, map_some, Text, codes, text_eq, Time, Floats,
  Result, ok, err,
}
use perf_loadgen.Types.{RunResult}
use perf_loadgen.Stats.Collector.{Collector, merge, snapshot}
use perf_loadgen.Stats.Collector
use perf_loadgen.Stats.Collector.Agreement.{Agree}
use perf_loadgen.Stats.Collector.Distributed.{
  collected, merge_workers, merge_workers-collected, Countable,
}
use perf_loadgen.Distributed.{WorkerResult, WorkerState}
use perf_loadgen.Distributed.Master.Gather.{
  settle, no_worker, final_status, collect, gather, starting, run,
}

abbrev pub is_in : ℕ → List ℕ → Bool
is_in i [] = false
is_in i (j ∷ js) = nat_beq j i || is_in i js

get_elem?-set :
    {A : Type 0} (xs : List A) (i j : ℕ) (v : A)
    → get_elem? (set xs i v) j
      ≡ (if nat_beq i j then map_some (λ x. v) (get_elem? xs j) else get_elem? xs j)
get_elem?-set [] i j v = ground arith
get_elem?-set (x ∷ xs) zero zero v = refl
get_elem?-set (x ∷ xs) zero (suc j) v = ground arith
get_elem?-set (x ∷ xs) (suc i) zero v = ground arith
get_elem?-set (x ∷ xs) (suc i) (suc j) v = get_elem?-set xs i j v ∙ ground arith

map_some-get_or :
    {A : Type 0} (g : A → A) (xs : List A) (i : ℕ) (d : A)
    → map_some (λ x. g (get_or xs i d)) (get_elem? xs i) ≡ map_some g (get_elem? xs i)
map_some-get_or g [] i d = refl
map_some-get_or g (x ∷ xs) zero d = refl
map_some-get_or g (x ∷ xs) (suc i) d = map_some-get_or g xs i d

same_elements :
    {A : Type 0} (xs ys : List A) → ((i : ℕ) → get_elem? xs i ≡ get_elem? ys i) → xs ≡ ys
same_elements [] [] h = refl
same_elements [] (y ∷ ys) h = let e = h 0 in cc
same_elements (x ∷ xs) [] h = let e = h 0 in cc
same_elements {A} (x ∷ xs) (y ∷ ys) h =
    let e : some x ≡ some y = h 0 in
    let first : x ≡ y = cc in let rest = same_elements xs ys (λ i. h (suc i)) in cc

settle_idem :
    (a : Text) (o : Result Text WorkerResult) (s : WorkerState)
    → settle a o (settle a o s) ≡ settle a o s
unfolding settle
settle_idem a (err e) s = refl
settle_idem a (ok r) s = refl

twice :
    (a : Text) (o : Result Text WorkerResult) (s : Option WorkerState)
    → map_some (settle a o) (map_some (settle a o) s) ≡ map_some (settle a o) s
twice a o none = refl
twice a o (some s) = ap some (settle_idem a o s)

abbrev is_err : Result Text WorkerResult → Bool
is_err (err e) = true
is_err (ok r) = false

Err-cases :
    (o : Result Text WorkerResult) → ((e : Text) × (o ≡ err e)) ⊎ ((r : WorkerResult) × (o ≡ ok r))
Err-cases (err e) = inl (e, refl)
Err-cases (ok r) = inr (r, refl)

module _ (f : Floats) (address : ℕ → Text) (outcome : ℕ → Result Text WorkerResult) where
  abbrev settle_at : ℕ → WorkerState → WorkerState
  settle_at i = settle (address i) (outcome i)

  set_settled :
      (states : List WorkerState) (i k : ℕ)
      → get_elem? (set states i (settle_at i (get_or states i no_worker))) k
        ≡ (if nat_beq i k then map_some (settle_at k) (get_elem? states k) else get_elem? states k)
  set_settled states i k = elim (Bool-cases (nat_beq i k)) [
    | inl same ↦
        let e : i ≡ k = ground (arith, same) in
        get_elem?-set states i k (settle_at i (get_or states i no_worker))
        ∙ rw (same, e) (map_some-get_or (settle_at k) states k no_worker)
    | inr other ↦ get_elem?-set states i k (settle_at i (get_or states i no_worker)) ∙ rw other refl
  ]

  gather_elements :
      (order : List ℕ) (states : List WorkerState) (c : Collector) (k : ℕ)
      → get_elem? (gather f address outcome order (states, c)).0 k ≡ (
          if is_in k order then map_some (settle_at k) (get_elem? states k) else get_elem? states k)
  unfolding gather
  gather_elements [] states c k = refl
  gather_elements (i ∷ order) states c k =
      gather_elements order (set states i (settle_at i (get_or states i no_worker)))
        (collect f address outcome (outcome i) c) k
      ∙ rw (set_settled states i k)
          (ground (arith, twice (address k) (outcome k) (get_elem? states k)))

  -- The states of the workers from the `i`-th on, each settled by its own result.
  abbrev pub settled : ℕ → List WorkerState → List WorkerState
  settled i [] = []
  settled i (s ∷ states) = settle_at i s ∷ settled (suc i) states

  settled_elements :
      (i : ℕ) (states : List WorkerState) (k : ℕ)
      → get_elem? (settled i states) k ≡ map_some (settle_at (i + k)) (get_elem? states k)
  settled_elements i [] k = refl
  settled_elements i (s ∷ states) zero = ap (λ j. some (settle_at j s)) (omega arith)
  settled_elements i (s ∷ states) (suc k) =
      settled_elements (suc i) states k
      ∙ ap (λ j. map_some (settle_at j) (get_elem? states k)) (omega arith)

  settled_here :
      (states : List WorkerState) (k : ℕ)
      → get_elem? (settled 0 states) k ≡ map_some (settle_at k) (get_elem? states k)
  settled_here states k =
      settled_elements 0 states k
      ∙ ap (λ j. map_some (settle_at j) (get_elem? states k)) (omega arith)

  outside : {A : Type 0} (xs : List A) (k : ℕ) → length xs ≤ k → get_elem? xs k ≡ none
  outside [] k h = refl
  outside (x ∷ xs) zero h = absurd (omega arith)
  outside (x ∷ xs) (suc k) h = outside xs k (omega arith)

  covered_elements :
      (order : List ℕ) (states : List WorkerState) (k : ℕ)
      → ((i : ℕ) → i < length states → is_in i order ≡ true)
      → (if is_in k order then map_some (settle_at k) (get_elem? states k) else get_elem? states k)
        ≡ map_some (settle_at k) (get_elem? states k)
  covered_elements order states k covers = elim (Bool-cases (ltb k (length states))) [
    | inl inside ↦ rw (covers k (ground (arith, inside))) refl
    | inr beyond ↦ rw (outside states k (ground (arith, beyond))) (ground arith)
  ]

  -- Whatever the order in which the workers' results arrive, as long as each worker's arrives, the
  -- final state of every worker is its checked state, settled by its own result.
  pub gather-settled :
      (order : List ℕ) (states : List WorkerState) (c : Collector)
      → ((i : ℕ) → i < length states → is_in i order ≡ true)
      → (gather f address outcome order (states, c)).0 ≡ settled 0 states
  gather-settled order states c covers =
      same_elements (gather f address outcome order (states, c)).0 (settled 0 states) (λ k.
        gather_elements order states c k
        ∙ covered_elements order states k covers
        ∙ sym (settled_here states k))

  -- The worker answered with a result.
  abbrev pub Succeeds : ℕ → Type 0
  Succeeds i = (r : WorkerResult) × (outcome i ≡ ok r)

  abbrev pub AllFrom : (ℕ → Type 0) → ℕ → List WorkerState → Type 0
  AllFrom P i [] = Unit {0}
  AllFrom P i (s ∷ states) = P i × AllFrom P (suc i) states

  settled_failed :
      (a : Text) (o : Result Text WorkerResult) (s : WorkerState)
      → ((settle a o s).status == codes "failed") ≡ is_err o
  unfolding settle
  settled_failed a (err e) s = refl
  settled_failed a (ok r) s = refl

  final_sound :
      (i : ℕ) (states : List WorkerState)
      → final_status (settled i states) ≡ codes "completed"
      → AllFrom Succeeds i states
  unfolding final_status
  final_sound i [] h = tt
  final_sound i (s ∷ states) h = elim (Err-cases (outcome i)) [
    | inl (e, failed) ↦ ground (arith, settled_failed (address i) (outcome i) s, failed)
    | inr (r, answered) ↦ (
      (r, answered),
      final_sound (suc i) states
          (ground (arith, settled_failed (address i) (outcome i) s, answered)),
    )
  ]

  final_complete :
      (i : ℕ) (states : List WorkerState)
      → AllFrom Succeeds i states
      → final_status (settled i states) ≡ codes "completed"
  unfolding final_status
  final_complete i [] a = refl
  final_complete i (s ∷ states) ((r, answered), a) =
      ground
        (arith, settled_failed (address i) (outcome i) s, answered, final_complete (suc i) states a)

  -- Whatever the order of arrival, a run over workers that were checked ends with the status
  -- completed exactly when every worker answered with a result.
  pub run-status :
      (price : ℕ) (job_id : Text) (start ended done : Time) (order : List ℕ)
      (checked : List WorkerState)
      → ((i : ℕ) → i < length checked → is_in i order ≡ true)
      → ((run f address outcome price job_id start ended done order checked).status
          ≡ codes "completed")
        ↔ AllFrom Succeeds 0 checked
  unfolding run
  run-status price job_id start ended done order checked covers =
      let e =
        ap final_status (gather-settled order checked (starting f address outcome price) covers) in
      (λ h. final_sound 0 checked (sym e ∙ h), λ a. e ∙ final_complete 0 checked a)

  gather_collector :
      (order : List ℕ) (states : List WorkerState) (c : Collector) (results : ℕ → List RunResult)
      → ((i : ℕ)
          → (r : WorkerResult) × (outcome i ≡ ok r)
            × (r.snapshot ≡ snapshot (collected f (results i))))
      → (gather f address outcome order (states, c)).1 ≡ merge_workers f c (map results order)
  unfolding gather merge_workers collect
  gather_collector [] states c results h = refl
  gather_collector (i ∷ order) states c results h =
      let (r, answered, reported) = h i in
      let merged = ap (λ o. collect f address outcome o c) answered ∙ ap (merge f c) reported in
      let settled_states = set states i (settle_at i (get_or states i no_worker)) in
      ap (λ d. (gather f address outcome order (settled_states, d)).1) merged
      ∙ gather_collector order settled_states (merge f c (snapshot (collected f (results i))))
          results h

  -- Where every worker answers with the snapshot of its own results, fewer than 2^64 each, and no
  -- price is set, the collector that the master has gathered reports what one process would that
  -- has added all these results in the order of arrival, times and the token rate aside.
  pub gather-collected :
      (order : List ℕ) (states : List WorkerState) (results : ℕ → List RunResult)
      → ((i : ℕ)
          → (r : WorkerResult) × (outcome i ≡ ok r)
            × (r.snapshot ≡ snapshot (collected f (results i))))
      → All (Countable f) (map results order)
      → Agree
          (gather f address outcome order (states, Collector.new f)).1
          (collected f (flatten (map results order)))
  gather-collected order states results h m =
      subst (λ c. Agree c (collected f (flatten (map results order))))
        (sym (gather_collector order states (Collector.new f) results h))
        (merge_workers-collected f (map results order) m)
