-- ===== src/Engine/Counter.antt =====
-- internal/engine/engine.go: the workers of a run with a limit on its requests, in any interleaving.
use perf_loadgen.Base.{
  ℕ, zero, suc, ◌+◌, ◌≤◌, ◌<◌, ◌≡◌, refl, ◌∙◌, ◌⊎◌, inl, inr, true, false, List, [], ◌∷◌, some,
  arith, length, length-set, get_elem?, set, replicate, length-replicate, if◌then◌else◌, Bool-cases,
  Int64, two63, add64, lt64,
}
use perf_loadgen.Engine.{claim}

-- A worker between two requests, in a request, past the limit, or ended by the context.
pub data Phase : Type 0 where
  between requesting limited ended : Phase

pub record Run : Type 0 where
  pub issued : Int64
  pub begun : ℕ
  pub workers : List Phase

-- What the worker does with the answer of `claim`.
unfoldable pub turn : Int64 → ℕ → Run → Run
unfolding claim
turn requests i run =
    let (issued, goes_on) = claim requests run.issued in
    record {
      issued = issued;
      begun = if goes_on then suc run.begun else run.begun;
      workers = set run.workers i (if goes_on then requesting else limited);
    }

pub data Steps (requests : Int64) (run : Run) : Run → Type 0 where
  same : Steps requests run run
  claims :
      {r : Run} (i : ℕ)
      → Steps requests run r
      → get_elem? r.workers i ≡ some between
      → Steps requests run (turn requests i r)
  answers :
      {r : Run} (i : ℕ)
      → Steps requests run r
      → get_elem? r.workers i ≡ some requesting
      → Steps requests run (record r { workers = set r.workers i between })
  ends :
      {r : Run} (i : ℕ)
      → Steps requests run r
      → Steps requests run (record r { workers = set r.workers i ended })

abbrev pub starting : ℕ → Run
starting concurrency = record { issued = 0; begun = 0; workers = replicate concurrency between }

-- How many claims were refused is at most the number of workers that do not claim any more.
abbrev still : Phase → ℕ
still limited = 1
still ended = 1
still _ = 0

abbrev stopped : List Phase → ℕ
stopped [] = 0
stopped (p ∷ ps) = still p + stopped ps

stopped-le : (ps : List Phase) → stopped ps ≤ length ps
stopped-le [] = omega arith
stopped-le (between ∷ ps) = omega (arith, stopped-le ps)
stopped-le (requesting ∷ ps) = omega (arith, stopped-le ps)
stopped-le (limited ∷ ps) = omega (arith, stopped-le ps)
stopped-le (ended ∷ ps) = omega (arith, stopped-le ps)

stopped-set :
    (ps : List Phase) (i : ℕ) (p q : Phase)
    → get_elem? ps i ≡ some p
    → stopped (set ps i q) + still p ≡ stopped ps + still q
stopped-set [] i p q h = cc
stopped-set (x ∷ ps) zero p q h = let e : x ≡ p = cc in rw e (omega arith)
stopped-set (x ∷ ps) (suc i) p q h = omega (arith, stopped-set ps i p q h)

stopped-end : (ps : List Phase) (i : ℕ) → stopped ps ≤ stopped (set ps i ended)
stopped-end [] i = omega arith
stopped-end (between ∷ ps) zero = omega arith
stopped-end (requesting ∷ ps) zero = omega arith
stopped-end (limited ∷ ps) zero = omega arith
stopped-end (ended ∷ ps) zero = omega arith
stopped-end (p ∷ ps) (suc i) = omega (arith, stopped-end ps i)

-- The refused claims are `refused`.
record Counted (requests : Int64) (concurrency : ℕ) (run : Run) : Type 0 where
  refused : ℕ
  issued : run.issued ≡ run.begun + refused
  few : refused ≤ stopped run.workers
  within : run.begun ≤ requests
  exhausted : (refused ≡ 0) ⊎ (run.begun ≡ requests)
  size : length run.workers ≡ concurrency

claim_limit :
    (requests issued : ℕ)
    → 0 < requests
    → requests < two63
    → issued + 1 < two63
    → ((claim requests issued ≡ (issued + 1, true)) × (issued + 1 ≤ requests))
      ⊎ ((claim requests issued ≡ (issued + 1, false)) × (requests < issued + 1))
unfolding claim
claim_limit requests issued positive small room =
    elim (Bool-cases (lt64 requests (add64 issued 1))) [
      | inl past ↦ inr (ground arith, ground arith)
      | inr within ↦ inl (ground arith, ground arith)
    ]

turn_on :
    (requests : ℕ) (i : ℕ) (r : Run) (n : ℕ)
    → claim requests r.issued ≡ (n, true)
    → turn requests i r
      ≡ record { issued = n; begun = suc r.begun; workers = set r.workers i requesting }
unfolding turn
turn_on requests i r n e = ground (arith, e)

turn_off :
    (requests : ℕ) (i : ℕ) (r : Run) (n : ℕ)
    → claim requests r.issued ≡ (n, false)
    → turn requests i r ≡ record { issued = n; begun = r.begun; workers = set r.workers i limited }
unfolding turn
turn_off requests i r n e = ground (arith, e)

module _ (requests concurrency : ℕ) (positive : 0 < requests)
    (small : requests + concurrency < two63) where
  claims-Counted :
      (i : ℕ) (r : Run)
      → get_elem? r.workers i ≡ some between
      → Counted requests concurrency r
      → Counted requests concurrency (turn requests i r)
  claims-Counted i r at v =
      let on = stopped-set r.workers i between requesting at in
      let off = stopped-set r.workers i between limited at in
      let all = stopped-le (set r.workers i limited) in
      let sized = length-set r.workers i limited in
      let room : r.issued + 1 < two63 =
        omega (arith, v.issued, v.few, v.within, off, all, sized, v.size) in
      elim (claim_limit requests r.issued positive (omega arith) room) [
        | inl (e, within) ↦ rw (turn_on requests i r (r.issued + 1) e) (record {
          refused = v.refused;
          issued = omega (arith, v.issued);
          few = omega (arith, v.few, on);
          within = omega (arith, v.issued, within);
          exhausted = going_on v.refused r.begun r.issued v.exhausted v.issued within;
          size = length-set r.workers i requesting ∙ v.size;
        })
        | inr (e, past) ↦ rw (turn_off requests i r (r.issued + 1) e) (record {
          refused = suc v.refused;
          issued = omega (arith, v.issued);
          few = omega (arith, v.few, off);
          within = v.within;
          exhausted = inr (used_up v.refused r.begun r.issued v.exhausted v.issued v.within past);
          size = sized ∙ v.size;
        })
      ]
    where
      going_on :
          (n b issued : ℕ)
          → (n ≡ 0) ⊎ (b ≡ requests)
          → issued ≡ b + n
          → issued + 1 ≤ requests
          → (n ≡ 0) ⊎ (suc b ≡ requests)
      going_on n b issued (inl e) sum within = inl e
      going_on n b issued (inr e) sum within = absurd (omega arith)

      used_up :
          (n b issued : ℕ)
          → (n ≡ 0) ⊎ (b ≡ requests)
          → issued ≡ b + n
          → b ≤ requests
          → requests < issued + 1
          → b ≡ requests
      used_up n b issued (inl e) sum most past = omega arith
      used_up n b issued (inr e) sum most past = e

  Steps-Counted :
      (r : Run) → Steps requests (starting concurrency) r → Counted requests concurrency r
  Steps-Counted _ same = record {
    refused = 0;
    issued = refl;
    few = omega arith;
    within = omega arith;
    exhausted = inl refl;
    size = length-replicate concurrency between;
  }
  Steps-Counted _ (claims {r} i before at) = claims-Counted i r at (Steps-Counted r before)
  Steps-Counted _ (answers {r} i before at) =
      let v = Steps-Counted r before in
      record {
        refused = v.refused;
        issued = v.issued;
        few = omega (arith, v.few, stopped-set r.workers i requesting between at);
        within = v.within;
        exhausted = v.exhausted;
        size = length-set r.workers i between ∙ v.size;
      }
  Steps-Counted _ (ends {r} i before) =
      let v = Steps-Counted r before in
      record {
        refused = v.refused;
        issued = v.issued;
        few = omega (arith, v.few, stopped-end r.workers i);
        within = v.within;
        exhausted = v.exhausted;
        size = length-set r.workers i ended ∙ v.size;
      }

  -- In every interleaving of its workers, a run with a positive limit begins at most that many
  -- requests; and if the counter was ever taken past the limit, exactly that many were begun.
  -- Limit and number of workers add up to less than 2^63.
  pub Steps-limit :
      (r : Run)
      → Steps requests (starting concurrency) r
      → (r.begun ≤ requests) × ((r.issued ≤ requests) ⊎ (r.begun ≡ requests))
  Steps-limit r steps =
      let v = Steps-Counted r steps in
      (
        v.within,
        elim v.exhausted [ inl e ↦ inl (omega (arith, v.issued, v.within, e)) | inr e ↦ inr e ],
      )
