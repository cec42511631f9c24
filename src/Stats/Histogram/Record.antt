-- ===== src/Stats/Histogram/Record.antt =====
-- What `Record` does to the counts of a histogram.
use perf_loadgen.Base.{
  ℕ, zero, suc, ◌+◌, ◌-◌, ◌<◌, ◌≤◌, ◌≡◌, refl, ◌∙◌, ap, ◌⊎◌, inl, inr, true, false, List, [], ◌∷◌,
  none, some, arith, length, get_or, set, length-set, Int64, add64, lt64, le64, if◌then◌else◌,
  Bool-cases, Option-cases, All, Floats, Float64, length-replicate, add64_assoc, add64_comm,
  Duration,
}
use perf_loadgen.Stats.Histogram.{
  Histogram, bucket_from, bucket_index, record_latency, total_from, total, bounds_from, new,
}

-- A histogram that `NewHistogram` made: one counter for each of at least one bound.
pub record IsShaped (h : Histogram) : Type 0 where
  pub inhabited : 0 < length h.bounds
  pub paired : length h.counts ≡ length h.bounds

bucket_from_bounds :
    (bs : List Duration) (i : ℕ) (d : Duration) {k : ℕ}
    → bucket_from bs i d ≡ some k
    → (i ≤ k) × (k < i + length bs)
unfolding bucket_from
bucket_from_bounds [] i d e = ground arith
bucket_from_bounds (b ∷ bs) i d {k} e = ground (arith, bucket_from_bounds bs (suc i) d {k = k})

pub bucket_index-lt :
    (h : Histogram) (d : Duration) → IsShaped h → bucket_index h d < length h.bounds
unfolding bucket_index
bucket_index-lt h d s = elim (Option-cases (bucket_from h.bounds 0 d)) [
  | inl e ↦ rw (e, bucket_index) (omega (arith, s.inhabited))
  | inr (k, e) ↦ rw (e, bucket_index) (omega (arith, bucket_from_bounds h.bounds 0 d e))
]

pub total_from-add64 :
    (a b : ℕ) (cs : List Int64) → total_from (add64 a b) cs ≡ add64 a (total_from b cs)
unfolding total_from
total_from-add64 a b [] = refl
total_from-add64 a b (c ∷ cs) =
    ap (λ t. total_from t cs) (add64_assoc a b c) ∙ total_from-add64 a (add64 b c) cs

total_from-set :
    (t : ℕ) (cs : List Int64) (i : ℕ)
    → i < length cs
    → total_from t (set cs i (add64 (get_or cs i 0) 1)) ≡ add64 1 (total_from t cs)
unfolding total_from
total_from-set t [] i h = absurd (omega arith)
total_from-set t (c ∷ cs) zero h =
    ap (λ u. total_from u cs) (omega arith) ∙ total_from-add64 1 (add64 t c) cs
total_from-set t (c ∷ cs) (suc i) h = total_from-set (add64 t c) cs i (omega arith)

-- Recording a latency, whatever it is, adds one to the number of samples and keeps the buckets.
pub total-record_latency :
    (h : Histogram) (d : Duration)
    → IsShaped h
    → (total (record_latency h d) ≡ add64 (total h) 1)
      × ((record_latency h d).bounds ≡ h.bounds)
      × IsShaped (record_latency h d)
unfolding total record_latency
total-record_latency h d s =
    let i = bucket_index h (if lt64 d 0 then 0 else d) in
    let inside : i < length h.counts =
      omega (arith, bucket_index-lt h (if lt64 d 0 then 0 else d) s) in
    (
      total_from-set 0 h.counts i inside ∙ add64_comm 1 (total_from 0 h.counts),
      refl,
      record {
        inhabited = s.inhabited;
        paired = length-set h.counts i (add64 (get_or h.counts i 0) 1) ∙ s.paired;
      },
    )

-- Where a latency belongs among bounds: the first that is not below it.
pub data Bucket (d : Duration) : List Duration → ℕ → Type 0 where
  here : {b : Duration} {bs : List Duration} → le64 d b ≡ true → Bucket d (b ∷ bs) 0
  there :
      {b : Duration} {bs : List Duration} {i : ℕ}
      → le64 d b ≡ false
      → Bucket d bs i
      → Bucket d (b ∷ bs) (suc i)

bucket_from-Bucket :
    (bs : List Duration) (i : ℕ) (d : Duration) {k : ℕ}
    → bucket_from bs i d ≡ some k
    → (j : ℕ) × (k ≡ i + j) × Bucket d bs j
unfolding bucket_from
bucket_from-Bucket [] i d e = ground arith
bucket_from-Bucket (b ∷ bs) i d {k} e = elim (Bool-cases (le64 d b)) [
  | inl fits ↦ (0, ground arith, here fits)
  | inr not_yet ↦
      let (j, p, t) = bucket_from-Bucket bs (suc i) d {k = k} (ground arith) in
      (suc j, omega arith, there not_yet t)
]

bucket_from-none :
    (bs : List Duration) (i : ℕ) (d : Duration)
    → bucket_from bs i d ≡ none
    → All (λ b. le64 d b ≡ false) bs
unfolding bucket_from
bucket_from-none [] i d e = tt
bucket_from-none (b ∷ bs) i d e = elim (Bool-cases (le64 d b)) [
  | inl fits ↦ absurd (ground arith)
  | inr not_yet ↦ (not_yet, bucket_from-none bs (suc i) d (ground arith))
]

abbrev pub clamped : Duration → Duration
clamped d = if lt64 d 0 then 0 else d

abbrev pub increment_at : ℕ → List Int64 → List Int64
increment_at i cs = set cs i (add64 (get_or cs i 0) 1)

-- A sample, taken as 0 where it is negative, is counted in the first bucket whose bound is not
-- below it, or in the last bucket where every bound is below it; no other count changes.
pub record_latency-Bucket :
    (h : Histogram) (d : Duration)
    → ((i : ℕ) × Bucket (clamped d) h.bounds i
        × ((record_latency h d).counts ≡ increment_at i h.counts))
      ⊎ (All (λ b. le64 (clamped d) b ≡ false) h.bounds
          × ((record_latency h d).counts ≡ increment_at (length h.bounds - 1) h.counts))
unfolding record_latency bucket_index
record_latency-Bucket h d = elim (Option-cases (bucket_from h.bounds 0 (clamped d))) [
  | inl e ↦ inr (bucket_from-none h.bounds 0 (clamped d) e, rw (e, bucket_index))
  | inr (k, e) ↦
      let (j, p, t) = bucket_from-Bucket h.bounds 0 (clamped d) {k = k} e in
      let q : k ≡ j = omega arith in inl (j, t, rw (e, bucket_index, q))
]

bounds_from-inhabited : (f : Floats) (fuel : ℕ) (x : Float64) → 0 < length (bounds_from f fuel x)
unfolding bounds_from
bounds_from-inhabited f zero x = omega arith
bounds_from-inhabited f (suc fuel) x = ground arith

pub new-IsShaped : (f : Floats) → IsShaped (new f)
unfolding new
new-IsShaped f = record {
  inhabited = bounds_from-inhabited f 93 (f.lit 1 1);
  paired = length-replicate (length (bounds_from f 93 (f.lit 1 1))) 0;
}
