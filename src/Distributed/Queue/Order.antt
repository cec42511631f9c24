-- ===== src/Distributed/Queue/Order.antt =====
-- internal/distributed/queue.go: the order in which jobs leave the queue. The abstract queue is the
-- list of the ids that wait.
use mathlib.Core.Path.{transport}
use perf_loadgen.Base.{
  ◌≤◌, true, false, List, [], ◌∷◌, ◌++◌, none, some, ◌≡◌, refl, sym, ap, ◌∙◌, length, All,
  if◌then◌else◌, ◌==◌, Text, text_eq, arith, keys, lookup, modify, AreDistinct, Bool-cases, inl,
  inr,
}
use perf_loadgen.Distributed.Queue.{QueuedJob, JobQueue, is_pending, Scan, hit, none_pending, scan}

abbrev pub Jobs : Type 0
Jobs = List (Text × QueuedJob)

-- The ids that wait, the oldest first.
abbrev pub waiting : Jobs → List Text
waiting [] = []
waiting ((id, j) ∷ m) = if is_pending j.status then id ∷ waiting m else waiting m

abbrev pub remove : Text → List Text → List Text
remove id [] = []
remove id (k ∷ ks) = if k == id then remove id ks else k ∷ remove id ks

-- A job that stands under its own id.
abbrev pub IsNamed : Text × QueuedJob → Type 0
IsNamed (id, j) = j.id ≡ id

pub record IsWellFormed (q : JobQueue) : Type 0 where
  pub ordered : keys q.jobs ≡ q.order
  pub distinct : AreDistinct q.jobs
  pub named : All IsNamed q.jobs
  pub bounded : length q.jobs ≤ q.max_jobs

unfoldable pub first_pending : Jobs → Scan
first_pending [] = none_pending
first_pending ((id, j) ∷ m) = if is_pending j.status then hit id j else first_pending m

-- Every entry is what the whole map holds under its key.
abbrev Found : Jobs → Text × QueuedJob → Type 0
Found full (id, j) = lookup id full ≡ some j

scan-first_pending : (full m : Jobs) → All (Found full) m → scan full (keys m) ≡ first_pending m
unfolding scan first_pending
scan-first_pending full [] a = refl
scan-first_pending full ((id, j) ∷ m) (h, a) = ground (arith, scan-first_pending full m a)

lookup_later :
    (k id : Text) (v j : QueuedJob) (m : Jobs)
    → lookup k m ≡ none
    → lookup id m ≡ some j
    → lookup id ((k, v) ∷ m) ≡ some j
unfolding lookup
lookup_later k id v j m absent h = ground (arith, text_eq.beq_iff k id)

Found-later :
    (k : Text) (v : QueuedJob) (full m : Jobs)
    → lookup k full ≡ none
    → All (Found full) m
    → All (Found ((k, v) ∷ full)) m
Found-later k v full [] h a = tt
Found-later k v full ((id, j) ∷ m) h (found, a) =
    (lookup_later k id v j full h found, Found-later k v full m h a)

pub lookup_first : (k : Text) (v : QueuedJob) (m : Jobs) → lookup k ((k, v) ∷ m) ≡ some v
unfolding lookup
lookup_first k v m = ground (arith, text_eq.beq_iff k k)

AreDistinct-Found : (m : Jobs) → AreDistinct m → All (Found m) m
AreDistinct-Found [] d = tt
AreDistinct-Found ((k, v) ∷ m) (h, d) =
    (lookup_first k v m, Found-later k v m m h (AreDistinct-Found m d))

pub scan_lem : (q : JobQueue) → IsWellFormed q → scan q.jobs q.order ≡ first_pending q.jobs
scan_lem q w =
    ap (scan q.jobs) (sym w.ordered)
    ∙ scan-first_pending q.jobs q.jobs (AreDistinct-Found q.jobs w.distinct)

-- A change that ends a job's wait.
abbrev pub Ends : (QueuedJob → QueuedJob) → Type 0
Ends g = (j : QueuedJob) → is_pending (g j).status ≡ false

remove_absent : (id : Text) (m : Jobs) → lookup id m ≡ none → remove id (waiting m) ≡ waiting m
unfolding lookup
remove_absent id [] h = refl
remove_absent id ((k, j) ∷ m) h = ground (arith, remove_absent id m)

pub waiting-modify :
    (id : Text) (g : QueuedJob → QueuedJob) (m : Jobs)
    → Ends g
    → AreDistinct m
    → waiting (modify id g m) ≡ remove id (waiting m)
unfolding modify
waiting-modify id g [] e d = refl
waiting-modify id g ((k, j) ∷ m) e (h, d) =
    ground (arith, e j, text_eq.beq_iff k id, remove_absent id m, waiting-modify id g m e d)

pub waiting-append :
    (id : Text) (j : QueuedJob) (m : Jobs)
    → is_pending j.status ≡ true
    → waiting (m ++ (id, j) ∷ []) ≡ waiting m ++ id ∷ []
waiting-append id j [] p = ground arith
waiting-append id j ((k, i) ∷ m) p = ground (arith, waiting-append id j m p)

-- The first id that waits, as the map has it.
unfoldable pub Head : Jobs → List Text → Type 0
Head m [] = first_pending m ≡ none_pending
Head m (id ∷ ids) =
    (j : QueuedJob) × (first_pending m ≡ hit id j)
    × (lookup id m ≡ some j)
    × IsNamed (id, j)
    × (remove id (waiting m) ≡ ids)

Head-later :
    (k : Text) (v : QueuedJob) (m : Jobs) (w : List Text)
    → waiting m ≡ w
    → is_pending v.status ≡ false
    → lookup k m ≡ none
    → Head m w
    → Head ((k, v) ∷ m) w
unfolding Head first_pending
Head-later k v m [] e p absent h = ground arith
Head-later k v m (id ∷ ids) e p absent (j, first, found, named, rest) =
    (j, ground arith, lookup_later k id v j m absent found, named, ground arith)

waiting_here :
    (k : Text) (v : QueuedJob) (m : Jobs)
    → is_pending v.status ≡ true
    → k ∷ waiting m ≡ waiting ((k, v) ∷ m)
waiting_here k v m p = ground arith

waiting_skip :
    (k : Text) (v : QueuedJob) (m : Jobs)
    → is_pending v.status ≡ false
    → waiting m ≡ waiting ((k, v) ∷ m)
waiting_skip k v m p = ground arith

remove_here :
    (k : Text) (v : QueuedJob) (m : Jobs)
    → is_pending v.status ≡ true
    → lookup k m ≡ none
    → remove k (waiting ((k, v) ∷ m)) ≡ waiting m
remove_here k v m p h = ground (arith, text_eq.beq_iff k k, remove_absent k m h)

pub waiting-Head : (m : Jobs) → AreDistinct m → All IsNamed m → Head m (waiting m)
unfolding Head first_pending
waiting-Head [] d n = refl
waiting-Head ((k, v) ∷ m) (absent, d) (named, n) = elim (Bool-cases (is_pending v.status)) [
  | inl p ↦
      transport (ap (Head ((k, v) ∷ m)) (waiting_here k v m p))
        (v, ground arith, lookup_first k v m, named, remove_here k v m p absent)
  | inr p ↦
      transport (ap (Head ((k, v) ∷ m)) (waiting_skip k v m p))
        (Head-later k v m (waiting m) refl p absent (waiting-Head m d n))
]
