-- ===== src/Stats/Histogram.antt =====
-- internal/stats/histogram.go: latency counts in buckets with fixed upper bounds.
pub mod Record
pub mod Merging
pub mod Quantiles
pub mod Percentile
use perf_loadgen.Base.{
  ℕ, zero, suc, ◌+◌, ◌-◌, ◌*◌, ◌%◌, ◌/◌, Bool, true, false, List, [], ◌∷◌, map, ◌≡◌, refl, Option,
  none, some, ltb, leb, nat_beq, if◌then◌else◌, length, get_or, set, replicate, Int64, two64, add64,
  lt64, le64, is_pos64, Floats, Float64, Duration, microseconds, of_micros, second,
}
use perf_loadgen.Types.{HistogramSnapshot}

pub record Histogram : Type 0 where
  pub bounds : List Duration
  pub counts : List Int64

-- `NewHistogramFromSnapshot`.
unfoldable pub of_snapshot : HistogramSnapshot → Histogram
of_snapshot s = record { bounds = map of_micros s.bounds_micros; counts = s.counts }

unfoldable pub snapshot : Histogram → HistogramSnapshot
snapshot h = record { bounds_micros = map microseconds h.bounds; counts = h.counts }

-- The loop `h.counts[i] += count`.
unfoldable pub add_counts : List Int64 → List Int64 → List Int64
add_counts [] ys = []
add_counts (x ∷ xs) [] = x ∷ xs
add_counts (x ∷ xs) (y ∷ ys) = add64 x y ∷ add_counts xs ys

unfoldable pub merge : Histogram → HistogramSnapshot → Histogram
unfolding of_snapshot add_counts
merge h s =
    if nat_beq (length s.counts) 0
    then h
    else if nat_beq (length h.counts) 0
    then of_snapshot s
    else if nat_beq (length h.counts) (length s.counts)
    then record h { counts = add_counts h.counts s.counts }
    else h

-- `bucketIndex`; the second argument is the loop's `i`.
unfoldable pub bucket_from : List Duration → ℕ → Duration → Option ℕ
bucket_from [] i latency = none
bucket_from (b ∷ bs) i latency = if le64 latency b then some i else bucket_from bs (suc i) latency

unfoldable pub bucket_index : Histogram → Duration → ℕ
unfolding bucket_from
bucket_index h latency = elim (bucket_from h.bounds 0 latency) [
  | none ↦ length h.bounds - 1
  | some i ↦ i
]

-- `Record`. The index lies inside, unless the histogram has no bucket at all, where Go panics.
unfoldable pub record_latency : Histogram → Duration → Histogram
unfolding bucket_index
record_latency h latency =
    let i = bucket_index h (if lt64 latency 0 then 0 else latency) in
    record h { counts = set h.counts i (add64 (get_or h.counts i 0) 1) }

unfoldable pub total_from : Int64 → List Int64 → Int64
total_from total [] = total
total_from total (c ∷ cs) = total_from (add64 total c) cs

unfoldable pub total : Histogram → Int64
unfolding total_from
total h = total_from 0 h.counts

unfoldable pub min_nonzero_from : List Duration → List Int64 → Duration
min_nonzero_from (b ∷ bs) (c ∷ cs) = if is_pos64 c then b else min_nonzero_from bs cs
min_nonzero_from _ _ = 0

unfoldable pub min_nonzero : Histogram → Duration
unfolding min_nonzero_from
min_nonzero h = min_nonzero_from h.bounds h.counts

-- The loop from the end: the last non-zero bucket, or the value found so far.
unfoldable pub max_nonzero_from : List Duration → List Int64 → Duration → Duration
max_nonzero_from (b ∷ bs) (c ∷ cs) found = max_nonzero_from bs cs (if is_pos64 c then b else found)
max_nonzero_from _ _ found = found

unfoldable pub max_nonzero : Histogram → Duration
unfolding max_nonzero_from
max_nonzero h = max_nonzero_from h.bounds h.counts 0

-- The loop of `Quantile`: the first bound whose cumulative count reaches the target.
unfoldable pub reach : Int64 → Int64 → List Duration → List Int64 → Option Duration
reach target cumulative (b ∷ bs) (c ∷ cs) =
    if le64 target (add64 cumulative c) then some b else reach target (add64 cumulative c) bs cs
reach target cumulative _ _ = none

-- `Quantile` at a fraction inside (0, 1), once the target is known.
unfoldable pub at_target : Histogram → Int64 → Duration
unfolding reach
at_target h target = elim (reach target 0 h.bounds h.counts) [
  | none ↦ get_or h.bounds (length h.bounds - 1) 0
  | some b ↦ b
]

module _ (f : Floats) where
  open f use {of_int, fmul, flt, fle, lit, ceil_int, trunc_int}

  -- The loop of `NewHistogram`, at most `fuel` rounds of it.
  unfoldable pub bounds_from : ℕ → Float64 → List Duration
  bounds_from zero current = second * 60 ∷ []
  bounds_from (suc fuel) current = elim (flt current (lit 60_000_000 1)) [
    | true ↦ of_micros (trunc_int current) ∷ bounds_from fuel (fmul current (lit 5 4))
    | false ↦ second * 60 ∷ []
  ]

  -- `NewHistogram`; its capacity of 93 is the fuel.
  unfoldable pub new : Histogram
  unfolding bounds_from
  new =
      let bounds = bounds_from 93 (lit 1 1) in
      record { bounds = bounds; counts = replicate (length bounds) 0 }

  unfoldable pub quantile : Histogram → Float64 → Duration
  unfolding total min_nonzero max_nonzero at_target
  quantile h q =
      if nat_beq (total h) 0
      then 0
      else if fle q (lit 0 1)
      then min_nonzero h
      else if fle (lit 1 1) q
      then max_nonzero h
      else at_target h (ceil_int (fmul (of_int (total h)) q))

  total_from-replicate : (n : ℕ) → total_from 0 (replicate n 0) ≡ 0
  unfolding total_from
  total_from-replicate zero = refl
  total_from-replicate (suc n) = total_from-replicate n

  pub new-total : total new ≡ 0
  unfolding new total
  new-total = total_from-replicate (length (bounds_from 93 (lit 1 1)))
