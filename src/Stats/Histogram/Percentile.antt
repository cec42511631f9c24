-- ===== src/Stats/Histogram/Percentile.antt =====
-- What `Quantile` promises of the latencies that were recorded.
use perf_loadgen.Base.{
  ℕ, zero, suc, ◌<◌, ◌≤◌, ◌≡◌, refl, ◌∙◌, ap, sym, ◌⊎◌, inl, inr, true, false, List, [], ◌∷◌, some,
  arith, leb, length, get_elem?, take, Int64, two63, le64, All, Bool-cases, Duration, Floats,
  Float64,
}
use mathlib.Core.Path.{subst}
use perf_loadgen.Stats.Histogram.{total, at_target, quantile}
use perf_loadgen.Stats.Histogram.Quantiles.{
  sum, total-sum, IsQuantile, All-get, AreSorted, Fits, count_le, recorded, recorded-take,
  at_target-IsQuantile, recorded-sum,
}

sum-take_mono : (cs : List Int64) (i j : ℕ) → i ≤ j → sum (take i cs) ≤ sum (take j cs)
sum-take_mono cs zero j h = omega arith
sum-take_mono [] (suc i) j h = omega arith
sum-take_mono (c ∷ cs) (suc i) zero h = absurd (omega arith)
sum-take_mono (c ∷ cs) (suc i) (suc j) h = omega (arith, sum-take_mono cs i j (omega arith))

le64_refl : (a : ℕ) → le64 a a ≡ true
le64_refl a = ground arith

sorted_get :
    (bs : List Duration) (i j : ℕ) {b c : Duration}
    → AreSorted bs
    → i ≤ j
    → get_elem? bs i ≡ some b
    → get_elem? bs j ≡ some c
    → le64 b c ≡ true
sorted_get [] i j s h e f = cc
sorted_get (x ∷ bs) zero zero {b} {c} s h e f = let same : b ≡ c = cc in rw same (le64_refl c)
sorted_get (x ∷ bs) zero (suc j) {b} {c} s h e f =
    let same : b ≡ x = cc in rw same (All-get (λ y. le64 x y ≡ true) bs j s.0 f)
sorted_get (x ∷ bs) (suc i) zero s h e f = absurd (omega arith)
sorted_get (x ∷ bs) (suc i) (suc j) s h e f = sorted_get bs i j s.1 (omega arith) e f

-- The target rank of a quantile: one at least, and no more than there are samples. Exact
-- arithmetic gives this for every fraction between 0 and 1.
abbrev pub rank : Floats → ℕ → Float64 → Int64
rank f n q = f.ceil_int (f.fmul (f.of_int n) q)

pub record IsFraction (f : Floats) (q : Float64) (n : ℕ) : Type 0 where
  pub above_zero : f.fle q (f.lit 0 1) ≡ false
  pub below_one : f.fle (f.lit 1 1) q ≡ false
  pub positive : 0 < rank f n q
  pub within : rank f n q ≤ n

module _ (f : Floats) (bs ds : List Duration) (s : AreSorted bs) (m : length ds < two63)
    (a : All (Fits bs) ds) where
  quantile-at_target :
      (q : Float64)
      → 0 < length ds
      → IsFraction f q (length ds)
      → quantile f (recorded bs ds) q ≡ at_target (recorded bs ds) (rank f (length ds) q)
  unfolding quantile
  quantile-at_target q some_samples r =
      let counted = recorded-sum bs ds m a in
      let all : total (recorded bs ds) ≡ length ds =
        total-sum (recorded bs ds) (omega (arith, counted)) ∙ counted.0 in
      rw (all, r.above_zero, r.below_one) (ground arith)

  -- Too few samples do not exceed a bound below `d`.
  abbrev pub IsShort : ℕ → Duration → Duration → Type 0
  IsShort target d c = (le64 d c ≡ true) ⊎ (count_le c ds < target)

  -- Such a bound: `target` samples do not exceed it, and of every lower bound that is false.
  abbrev Least : ℕ → Duration → Type 0
  Least target d =
      (target ≤ count_le d ds)
      × ((j : ℕ) (c : Duration)
          → get_elem? bs j ≡ some c
          → le64 d c ≡ false
          → count_le c ds < target)

  IsQuantile-Least :
      (target : ℕ) (d : Duration) → IsQuantile target bs (recorded bs ds).counts d → Least target d
  IsQuantile-Least target d (i, at, under, over) = (
    omega (arith, recorded-take bs ds i {b = d} s m a at),
    λ j c g lower. elim (Bool-cases (leb i j)) [
      | inl after ↦ absurd (cc (sorted_get bs i j {b = d} {c = c} s (ground arith) at g))
      | inr before ↦ omega (
        arith,
        recorded-take bs ds j {b = c} s m a g,
        sum-take_mono (recorded bs ds).counts (suc j) i (ground arith),
      )
    ],
  )

  at_target_found :
      (target : ℕ)
      → 0 < target
      → target ≤ length ds
      → IsQuantile target bs (recorded bs ds).counts (at_target (recorded bs ds) target)
  at_target_found target lo hi =
      let counted = recorded-sum bs ds m a in
      let d = at_target (recorded bs ds) target in
      subst (λ l. IsQuantile target l (recorded bs ds).counts d) counted.1
        (at_target-IsQuantile (recorded bs ds) target (counted.2 ∙ sym (ap length counted.1)) lo
          (omega (arith, counted)) (omega (arith, counted)))

  at_target-Least :
      (target : ℕ)
      → 0 < target
      → target ≤ length ds
      → Least target (at_target (recorded bs ds) target)
  at_target-Least target lo hi =
      IsQuantile-Least target (at_target (recorded bs ds) target) (at_target_found target lo hi)

  Least-All :
      (target : ℕ) (d : Duration) (cs : List Duration)
      → ((i : ℕ) (c : Duration)
          → get_elem? cs i ≡ some c
          → le64 d c ≡ false
          → count_le c ds < target)
      → All (IsShort target d) cs
  Least-All target d [] h = tt
  Least-All target d (c ∷ cs) h = (
    elim (Bool-cases (le64 d c)) [
      | inl at_least ↦ inl at_least
      | inr below ↦ inr (h 0 c refl below)
    ],
    Least-All target d cs (λ i x at. h (suc i) x at),
  )

  -- `Quantile` returns the least bucket bound that at least the wanted share of the recorded
  -- latencies does not exceed: every bound is at least as great or too few samples are below it.
  -- The bounds ascend, every sample is at most the last bound, there are fewer than 2^63 samples
  -- and at least one, and the rank of the fraction lies between 1 and their number.
  pub quantile-least :
      (q : Float64)
      → 0 < length ds
      → IsFraction f q (length ds)
      → (rank f (length ds) q ≤ count_le (quantile f (recorded bs ds) q) ds)
        × All (IsShort (rank f (length ds) q) (quantile f (recorded bs ds) q)) bs
  quantile-least q some_samples r =
      let (enough, least) =
        subst (Least (rank f (length ds) q)) (sym (quantile-at_target q some_samples r))
          (at_target-Least (rank f (length ds) q) r.positive r.within) in
      (enough, Least-All (rank f (length ds) q) (quantile f (recorded bs ds) q) bs least)

  at_target_mono :
      (t u : ℕ)
      → 0 < t
      → t ≤ u
      → u ≤ length ds
      → le64 (at_target (recorded bs ds) t) (at_target (recorded bs ds) u) ≡ true
  at_target_mono t u lo le hi =
      let dt = at_target (recorded bs ds) t in
      let du = at_target (recorded bs ds) u in
      elim (Bool-cases (le64 dt du)) [
        | inl ordered ↦ ordered
        | inr reversed ↦
            let (j, at, _, _) = at_target_found u (omega arith) hi in
            let few = (at_target-Least t lo (omega arith)).1 j du at reversed in
            let many = (at_target-Least u (omega arith) hi).0 in absurd (omega (arith, few, many))
      ]

  -- Of two fractions whose ranks lie between 1 and the number of samples, the one with the larger
  -- rank never has the smaller quantile. The bounds ascend, every sample is at most the last bound,
  -- and there are fewer than 2^63 samples and at least one.
  pub quantile_mono :
      (p q : Float64)
      → 0 < length ds
      → IsFraction f p (length ds)
      → IsFraction f q (length ds)
      → rank f (length ds) p ≤ rank f (length ds) q
      → le64 (quantile f (recorded bs ds) p) (quantile f (recorded bs ds) q) ≡ true
  quantile_mono p q some_samples r t h =
      rw (quantile-at_target p some_samples r, quantile-at_target q some_samples t)
        (at_target_mono (rank f (length ds) p) (rank f (length ds) q) r.positive h t.within)
