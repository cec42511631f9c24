-- ===== src/Stats/Histogram/Quantiles.antt =====
-- Quantiles: which bound is returned, against prefix sums of the counts.
use perf_loadgen.Base.{
  ℕ, zero, suc, ◌+◌, ◌<◌, ◌≤◌, ◌≡◌, refl, ◌∙◌, inl, inr, true, false, List, [], ◌∷◌, some, arith,
  leb, length, get_elem?, get_or, take, Int64, two63, two64, add64, le64, if◌then◌else◌, Bool-cases,
  Duration, All, length-set, ap, replicate, length-replicate,
}
use perf_loadgen.Stats.Histogram.{Histogram, total_from, total, record_latency, reach, at_target}
use mathlib.Core.Path.{subst}
use perf_loadgen.Stats.Histogram.Record.{
  Bucket, here, there, clamped, increment_at, record_latency-Bucket,
}
use perf_loadgen.Stats.Histogram.Merging.{record_all, of_lists}

-- The exact sum, which no int64 operation computes.
abbrev pub sum : List Int64 → ℕ
sum [] = 0
sum (c ∷ cs) = c + sum cs

total_from-sum : (t : ℕ) (cs : List Int64) → t + sum cs < two64 → total_from t cs ≡ t + sum cs
unfolding total_from
total_from-sum t [] h = omega arith
total_from-sum t (c ∷ cs) h =
    let e : add64 t c ≡ t + c = omega arith in
    omega (arith, e, total_from-sum (add64 t c) cs (omega (arith, e)))

-- Below 2^64 samples, `Total` is the exact sum of the counts.
pub total-sum : (h : Histogram) → sum h.counts < two64 → total h ≡ sum h.counts
unfolding total
total-sum h b = omega (arith, total_from-sum 0 h.counts (omega arith))

-- The bound of the first bucket that brings the count of the samples up to `target`.
abbrev pub IsQuantile : ℕ → List Duration → List Int64 → Duration → Type 0
IsQuantile target bs cs d =
    (i : ℕ) × (get_elem? bs i ≡ some d)
    × (sum (take i cs) < target)
    × (target ≤ sum (take (suc i) cs))

reach-IsQuantile :
    (target done : ℕ) (bs : List Duration) (cs : List Int64)
    → length cs ≡ length bs
    → done < target
    → target ≤ done + sum cs
    → done + sum cs < two63
    → (d : Duration) × (reach target done bs cs ≡ some d)
      × ((i : ℕ) × (get_elem? bs i ≡ some d)
          × (done + sum (take i cs) < target)
          × (target ≤ done + sum (take (suc i) cs)))
unfolding reach
reach-IsQuantile target done [] [] e lo hi max = absurd (omega arith)
reach-IsQuantile target done [] (c ∷ cs) e lo hi max = absurd (omega arith)
reach-IsQuantile target done (b ∷ bs) [] e lo hi max = absurd (omega arith)
reach-IsQuantile target done (b ∷ bs) (c ∷ cs) e lo hi max =
    elim (Bool-cases (leb target (done + c))) [
      | inl stop ↦ (b, ground arith, (0, refl, omega arith, ground arith))
      | inr go ↦
          let (d, found, (i, at, under, over)) =
            reach-IsQuantile target (done + c) bs cs (omega arith) (ground arith) (omega arith)
              (omega arith) in
          (d, ground (arith, found), (suc i, at, omega arith, omega arith))
    ]

-- The samples at or below a bound.
abbrev pub count_le : Duration → List Duration → ℕ
count_le b [] = 0
count_le b (d ∷ ds) = (if le64 (clamped d) b then 1 else 0) + count_le b ds

abbrev pub AreSorted : List Duration → Type 0
AreSorted [] = Unit {0}
AreSorted (b ∷ bs) = All (λ c. le64 b c ≡ true) bs × AreSorted bs

pub All-get {ℓ} :
    {A : Type ℓ} (P : A → Type 0) (xs : List A) (i : ℕ) {x : A}
    → All P xs
    → get_elem? xs i ≡ some x
    → P x
All-get P [] i h e = cc
All-get P (y ∷ xs) zero {x} h e = let same : y ≡ x = cc in subst P same h.0
All-get P (y ∷ xs) (suc i) h e = All-get P xs i h.1 e

-- The latency is at most the last bound.
abbrev pub Fits : List Duration → Duration → Type 0
Fits bs d = (k : ℕ) × Bucket (clamped d) bs k

increment_at-take :
    {d : Duration} (bs : List Duration) (cs : List Int64) (k i : ℕ) {b : Duration}
    → Bucket d bs k
    → AreSorted bs
    → length cs ≡ length bs
    → sum cs + 1 < two64
    → get_elem? bs i ≡ some b
    → sum (take (suc i) (increment_at k cs)) ≡ sum (take (suc i) cs) + (if le64 d b then 1 else 0)
increment_at-take bs [] k i (here h) s e m g = absurd (omega arith)
increment_at-take bs [] k i (there h r) s e m g = absurd (omega arith)
increment_at-take bs (c ∷ cs) k zero (here h) s e m g = ground arith
increment_at-take bs (c ∷ cs) k (suc i) {b} (here {bs = rest} h) s e m g =
    let above = All-get (λ x. le64 _ x ≡ true) rest i {x = b} s.0 g in ground arith
increment_at-take bs (c ∷ cs) k zero (there h r) s e m g = ground arith
increment_at-take bs (c ∷ cs) k (suc i) {b} (there {bs = rest} {i = j} h r) s e m g =
    omega (arith, increment_at-take rest cs j i {b = b} r s.1 (omega arith) (omega arith) g)

length-increment_at : (k : ℕ) (cs : List Int64) → length (increment_at k cs) ≡ length cs
length-increment_at k cs = length-set cs k (add64 (get_or cs k 0) 1)

sum-increment_at :
    (k : ℕ) (cs : List Int64)
    → k < length cs
    → sum cs + 1 < two64
    → sum (increment_at k cs) ≡ sum cs + 1
sum-increment_at k [] h m = absurd (omega arith)
sum-increment_at zero (c ∷ cs) h m = omega arith
sum-increment_at (suc k) (c ∷ cs) h m =
    omega (arith, sum-increment_at k cs (omega arith) (omega arith))

Bucket-lt : {d : Duration} (bs : List Duration) (k : ℕ) → Bucket d bs k → k < length bs
Bucket-lt bs k (here h) = omega arith
Bucket-lt bs k (there {bs = rest} {i = j} h r) = omega (arith, Bucket-lt rest j r)

-- Two buckets of one latency are the same.
Bucket-unique :
    {d : Duration} {bs : List Duration} (i j : ℕ) → Bucket d bs i → Bucket d bs j → i ≡ j
Bucket-unique i j (here h) (here k) = refl
Bucket-unique i j (here h) (there k r) = cc
Bucket-unique i j (there h r) (here k) = cc
Bucket-unique i j (there h r) (there k q) = ap suc (Bucket-unique _ _ r q)

Bucket-not-All :
    {d : Duration} {bs : List Duration} {i : ℕ} → Bucket d bs i → ¬ All (λ b. le64 d b ≡ false) bs
Bucket-not-All (here h) a = cc (a.0)
Bucket-not-All (there h r) a = Bucket-not-All r a.1

record_latency_fits :
    (bs : List Duration) (cs : List Int64) (d : Duration) (k : ℕ)
    → Bucket (clamped d) bs k
    → record_latency (of_lists bs cs) d ≡ of_lists bs (increment_at k cs)
unfolding record_latency
record_latency_fits bs cs d k b = elim (record_latency-Bucket (of_lists bs cs) d) [
  | inl (i, r, e) ↦
      ap (of_lists bs) e ∙ ap (λ j. of_lists bs (increment_at j cs)) (Bucket-unique i k r b)
  | inr (none_fits, e) ↦ absurd (Bucket-not-All b none_fits)
]

record_all-nil : (h : Histogram) → record_all h [] ≡ h
unfolding record_all
record_all-nil h = refl

record_all_fits :
    (bs : List Duration) (cs : List Int64) (d : Duration) (ds : List Duration) (k : ℕ)
    → Bucket (clamped d) bs k
    → record_all (of_lists bs cs) (d ∷ ds) ≡ record_all (of_lists bs (increment_at k cs)) ds
unfolding record_all
record_all_fits bs cs d ds k b = ap (λ h. record_all h ds) (record_latency_fits bs cs d k b)

-- The samples in the first buckets are those at or below the bound of the last of these.
record_all-take :
    (bs : List Duration) (cs : List Int64) (ds : List Duration) (i : ℕ) {b : Duration}
    → AreSorted bs
    → length cs ≡ length bs
    → sum cs + length ds < two64
    → All (Fits bs) ds
    → get_elem? bs i ≡ some b
    → sum (take (suc i) (record_all (of_lists bs cs) ds).counts)
      ≡ sum (take (suc i) cs) + count_le b ds
record_all-take bs cs [] i s e m a g = rw (record_all-nil (of_lists bs cs)) (omega arith)
record_all-take bs cs (d ∷ ds) i {b} s e m ((k, fits), a) g =
    let inside = Bucket-lt bs k fits in
    let more = sum-increment_at k cs (omega arith) (omega arith) in
    rw (record_all_fits bs cs d ds k fits) (
      omega (
        arith,
        record_all-take bs (increment_at k cs) ds i {b = b} s (length-increment_at k cs ∙ e)
            (omega (arith, more)) a g,
        increment_at-take bs cs k i {b = b} fits s e (omega arith) g,
      ))

pub record_all-sum :
    (bs : List Duration) (cs : List Int64) (ds : List Duration)
    → length cs ≡ length bs
    → sum cs + length ds < two64
    → All (Fits bs) ds
    → (sum (record_all (of_lists bs cs) ds).counts ≡ sum cs + length ds)
      × ((record_all (of_lists bs cs) ds).bounds ≡ bs)
      × (length (record_all (of_lists bs cs) ds).counts ≡ length bs)
record_all-sum bs cs [] e m a = rw (record_all-nil (of_lists bs cs)) (omega arith, refl, e)
record_all-sum bs cs (d ∷ ds) e m ((k, fits), a) =
    let inside = Bucket-lt bs k fits in
    let more = sum-increment_at k cs (omega arith) (omega arith) in
    let (total_sum, bounds, paired) =
      record_all-sum bs (increment_at k cs) ds (length-increment_at k cs ∙ e) (omega (arith, more))
        a in
    rw (record_all_fits bs cs d ds k fits) (omega (arith, total_sum, more), bounds, paired)

sum-replicate : (n : ℕ) → sum (replicate n 0) ≡ 0
sum-replicate zero = refl
sum-replicate (suc n) = omega (arith, sum-replicate n)

sum-take-replicate : (n i : ℕ) → sum (take i (replicate n 0)) ≡ 0
sum-take-replicate n zero = refl
sum-take-replicate zero (suc i) = refl
sum-take-replicate (suc n) (suc i) = omega (arith, sum-take-replicate n i)

-- A fresh histogram that has recorded `ds`.
abbrev pub recorded : List Duration → List Duration → Histogram
recorded bs ds = record_all (of_lists bs (replicate (length bs) 0)) ds

pub recorded-take :
    (bs ds : List Duration) (i : ℕ) {b : Duration}
    → AreSorted bs
    → length ds < two63
    → All (Fits bs) ds
    → get_elem? bs i ≡ some b
    → sum (take (suc i) (recorded bs ds).counts) ≡ count_le b ds
recorded-take bs ds i {b} s m a g = omega (
  arith,
  record_all-take bs (replicate (length bs) 0) ds i {b = b} s (length-replicate _ 0)
      (omega (arith, sum-replicate (length bs))) a g,
  sum-take-replicate (length bs) (suc i),
)

pub recorded-sum :
    (bs ds : List Duration)
    → length ds < two63
    → All (Fits bs) ds
    → (sum (recorded bs ds).counts ≡ length ds)
      × ((recorded bs ds).bounds ≡ bs)
      × (length (recorded bs ds).counts ≡ length bs)
recorded-sum bs ds m a =
    let (total_sum, bounds, paired) =
      record_all-sum bs (replicate (length bs) 0) ds (length-replicate _ 0)
        (omega (arith, sum-replicate (length bs))) a in
    (omega (arith, total_sum, sum-replicate (length bs)), bounds, paired)

pub at_target-IsQuantile :
    (h : Histogram) (target : ℕ)
    → length h.counts ≡ length h.bounds
    → 0 < target
    → target ≤ sum h.counts
    → sum h.counts < two63
    → IsQuantile target h.bounds h.counts (at_target h target)
unfolding at_target
at_target-IsQuantile h target e lo hi m =
    let (d, found, (i, at, under, over)) =
      reach-IsQuantile target 0 h.bounds h.counts e lo (omega arith) (omega arith) in
    rw (found, at_target) (i, at, omega arith, omega arith)
