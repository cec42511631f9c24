-- ===== src/Stats/Collector/Extremes.antt =====
-- The shortest, longest and average latency that the collector reports.
use perf_loadgen.Base.{
  ℕ, suc, ◌+◌, ◌*◌, ◌<◌, ◌≤◌, ◌≡◌, refl, ◌∙◌, ap, sym, ◌⊎◌, inl, inr, List, [], ◌∷◌, some, arith,
  length, get_elem?, min, max, All, two63, two64, Floats, quot64, quot64_nonneg,
}
use mathlib.Core.Path.{subst, subst₃}
use native.Mathlib.Decide.{dec_le}
use native.Mathlib.Nat.{le-div_iff_mul-le, div-le_of_le-mul}
use perf_loadgen.Types.{RunResult}
use perf_loadgen.Stats.Collector.{Collector, add, summary}
use perf_loadgen.Stats.Collector
use perf_loadgen.Stats.Collector.Counting.{add_all, Counts, add-Counts, new-Counts, add_all-Counts}

-- No latency is negative: the runners measure it on the monotonic clock.
abbrev pub Measured : RunResult → Type 0
Measured r = r.latency < two63

abbrev lowest : ℕ → List RunResult → ℕ
lowest m [] = m
lowest m (r ∷ rs) = lowest (min m r.latency) rs

abbrev highest : ℕ → List RunResult → ℕ
highest m [] = m
highest m (r ∷ rs) = highest (max m r.latency) rs

abbrev pub sum_latency : List RunResult → ℕ
sum_latency [] = 0
sum_latency (r ∷ rs) = r.latency + sum_latency rs

lowest-le : (m : ℕ) (rs : List RunResult) → lowest m rs ≤ m
lowest-le m [] = omega arith
lowest-le m (r ∷ rs) = omega (arith, lowest-le (min m r.latency) rs)

le-highest : (m : ℕ) (rs : List RunResult) → m ≤ highest m rs
le-highest m [] = omega arith
le-highest m (r ∷ rs) = omega (arith, le-highest (max m r.latency) rs)

-- Every latency lies between the two.
abbrev pub Between : ℕ → ℕ → RunResult → Type 0
Between lo hi r = (lo ≤ r.latency) × (r.latency ≤ hi)

between : (m n : ℕ) (rs : List RunResult) → All (Between (lowest m rs) (highest n rs)) rs
between m n [] = tt
between m n (r ∷ rs) = (
  (omega (arith, lowest-le (min m r.latency) rs), omega (arith, le-highest (max n r.latency) rs)),
  between (min m r.latency) (max n r.latency) rs,
)

-- The value is the latency of one of the results.
abbrev pub Attained : ℕ → List RunResult → Type 0
Attained x rs = (i : ℕ) × (r : RunResult) × (get_elem? rs i ≡ some r) × (r.latency ≡ x)

lowest-Attained : (m : ℕ) (rs : List RunResult) → (lowest m rs ≡ m) ⊎ Attained (lowest m rs) rs
lowest-Attained m [] = inl refl
lowest-Attained m (r ∷ rs) = elim (lowest-Attained (min m r.latency) rs) [
  | inl same ↦ elim (dec_le m r.latency) [
    | yes p ↦ inl (omega (arith, same))
    | no p ↦ inr (0, r, refl, omega (arith, same))
  ]
  | inr (i, x, at, e) ↦ inr (suc i, x, at, e)
]

highest-Attained : (m : ℕ) (rs : List RunResult) → (highest m rs ≡ m) ⊎ Attained (highest m rs) rs
highest-Attained m [] = inl refl
highest-Attained m (r ∷ rs) = elim (highest-Attained (max m r.latency) rs) [
  | inl same ↦ elim (dec_le r.latency m) [
    | yes p ↦ inl (omega (arith, same))
    | no p ↦ inr (0, r, refl, omega (arith, same))
  ]
  | inr (i, x, at, e) ↦ inr (suc i, x, at, e)
]

Attained-here :
    (r : RunResult) (rs : List RunResult) (x : ℕ)
    → (x ≡ r.latency) ⊎ Attained x rs
    → Attained x (r ∷ rs)
Attained-here r rs x (inl e) = (0, r, refl, sym e)
Attained-here r rs x (inr (i, y, at, e)) = (suc i, y, at, e)

sum-ge :
    (lo hi : ℕ) (rs : List RunResult) → All (Between lo hi) rs → lo * length rs ≤ sum_latency rs
sum-ge lo hi [] a = grind arith
sum-ge lo hi (r ∷ rs) (h, a) =
    let rest = sum-ge lo hi rs a in
    let e : lo * suc (length rs) ≡ lo + lo * length rs = grind arith in omega (arith, rest, e)

sum-le :
    (lo hi : ℕ) (rs : List RunResult) → All (Between lo hi) rs → sum_latency rs ≤ length rs * hi
sum-le lo hi [] a = omega arith
sum-le lo hi (r ∷ rs) (h, a) =
    let rest = sum-le lo hi rs a in
    let e : suc (length rs) * hi ≡ hi + length rs * hi = grind arith in omega (arith, rest, e)

-- Least, greatest and average latency of some results.
abbrev pub Reports : ℕ → ℕ → ℕ → List RunResult → Type 0
Reports lo hi avg rs =
    All (Between lo hi) rs × Attained lo rs × Attained hi rs × (lo ≤ avg) × (avg ≤ hi)

module _ (f : Floats) where
  add-extremes :
      (n : ℕ) (c : Collector) (r : RunResult)
      → Counts (suc n) c
      → c.min_latency < two63
      → c.max_latency < two63
      → Measured r
      → ((add f c r).min_latency ≡ min c.min_latency r.latency)
        × ((add f c r).max_latency ≡ max c.max_latency r.latency)
  unfolding add
  add-extremes n c r v lo hi h = (ground (arith, v.requests), ground arith)

  add_all-extremes :
      (n : ℕ) (c : Collector) (rs : List RunResult)
      → Counts (suc n) c
      → suc n + length rs < two64
      → c.min_latency < two63
      → c.max_latency < two63
      → All Measured rs
      → ((add_all f c rs).min_latency ≡ lowest c.min_latency rs)
        × ((add_all f c rs).max_latency ≡ highest c.max_latency rs)
  unfolding add_all
  add_all-extremes n c [] v m lo hi a = (refl, refl)
  add_all-extremes n c (r ∷ rs) v m lo hi (h, a) =
      let (e, g) = add-extremes n c r v lo hi h in
      let next : Counts (suc (suc n)) (add f c r) =
        subst (λ k. Counts k (add f c r)) (omega arith)
          (add-Counts f (suc n) c r v (omega arith)) in
      let (p, q) =
        add_all-extremes (suc n) (add f c r) rs next (omega arith) (omega (arith, e))
          (omega (arith, g)) a in
      (p ∙ ap (λ x. lowest x rs) e, q ∙ ap (λ x. highest x rs) g)

  add_all-total :
      (c : Collector) (rs : List RunResult)
      → c.total_latency + sum_latency rs < two64
      → (add_all f c rs).total_latency ≡ c.total_latency + sum_latency rs
  unfolding add_all add
  add_all-total c [] m = omega arith
  add_all-total c (r ∷ rs) m = omega (arith, add_all-total (add f c r) rs (omega arith))

  first-extremes :
      (r : RunResult)
      → Measured r
      → ((add f (Collector.new f) r).min_latency ≡ r.latency)
        × ((add f (Collector.new f) r).max_latency ≡ r.latency)
        × ((Collector.new f).total_latency ≡ 0)
  unfolding add Collector.new
  first-extremes r h = (ground arith, ground arith, refl)

  summary_latencies :
      (n : ℕ) (c : Collector)
      → Counts (suc n) c
      → ((summary f c).min_latency ≡ c.min_latency)
        × ((summary f c).max_latency ≡ c.max_latency)
        × ((summary f c).avg_latency ≡ quot64 c.total_latency (suc n))
  unfolding summary
  summary_latencies n c v =
      (ground (arith, v.requests), ground (arith, v.requests), ground (arith, v.requests))

  run_latencies :
      (r : RunResult) (rs : List RunResult)
      → All Measured (r ∷ rs)
      → length (r ∷ rs) < two63
      → sum_latency (r ∷ rs) < two63
      → let c = add_all f (Collector.new f) (r ∷ rs) in
        (c.min_latency ≡ lowest r.latency rs)
        × (c.max_latency ≡ highest r.latency rs)
        × (c.total_latency ≡ sum_latency (r ∷ rs))
  unfolding add_all
  run_latencies r rs (h, a) m t =
      let c = add f (Collector.new f) r in
      let (lo, hi, zero_total) = first-extremes r h in
      let one : Counts 1 c = add-Counts f 0 (Collector.new f) r (new-Counts f) (omega arith) in
      let (p, q) =
        add_all-extremes 0 c rs one (omega arith) (omega (arith, lo)) (omega (arith, hi)) a in
      (
        p ∙ ap (λ x. lowest x rs) lo,
        q ∙ ap (λ x. highest x rs) hi,
        omega (
          arith,
          add_all-total (Collector.new f) (r ∷ rs) (omega (arith, zero_total)),
          zero_total,
        ),
      )

  -- In the summary of a run with at least one request, whose latencies add up to less than 2^63
  -- nanoseconds, the least and the greatest latency are latencies of the run that bound all
  -- others, and the average lies between them.
  pub summary-extremes :
      (r : RunResult) (rs : List RunResult)
      → All Measured (r ∷ rs)
      → length (r ∷ rs) < two63
      → sum_latency (r ∷ rs) < two63
      → let s = summary f (add_all f (Collector.new f) (r ∷ rs)) in
        Reports s.min_latency s.max_latency s.avg_latency (r ∷ rs)
  summary-extremes r rs a m t =
      let n = suc (length rs) in
      let total = sum_latency (r ∷ rs) in
      let c = add_all f (Collector.new f) (r ∷ rs) in
      let (lo, hi, avg) =
        summary_latencies (length rs) c (add_all-Counts f (r ∷ rs) (omega arith)) in
      let (low, high, all) = run_latencies r rs a m t in
      let low_bound = lowest-le r.latency rs in
      let high_bound = le-highest r.latency rs in
      let inside : All (Between (lowest r.latency rs) (highest r.latency rs)) (r ∷ rs) =
        ((low_bound, high_bound), between r.latency r.latency rs) in
      subst₃ (λ x y z. Reports x y z (r ∷ rs)) (sym (lo ∙ low)) (sym (hi ∙ high))
        (sym (avg ∙ ap (λ x. quot64 x n) all ∙ quot64_nonneg total n t m))
        (
          inside,
          Attained-here r rs (lowest r.latency rs) (lowest-Attained r.latency rs),
          Attained-here r rs (highest r.latency rs) (highest-Attained r.latency rs),
          (le-div_iff_mul-le {k = n} {x = lowest r.latency rs} {y = total} (omega arith)).1
              (sum-ge (lowest r.latency rs) (highest r.latency rs) (r ∷ rs) inside),
          div-le_of_le-mul n (sum-le (lowest r.latency rs) (highest r.latency rs) (r ∷ rs) inside),
        )
