-- ===== src/Base/Counts.antt =====
-- Go maps from keys to int64 counters, as association lists with each key once.
use Prim.Native.Nat.{◌%◌, ◌<◌}
use mathlib.Core.Path.{◌≡◌}
use mathlib.Core.List.{List, [], ◌∷◌}
use native.Mathlib.Omega.{arith}
use perf_loadgen.Base.Tests.{if◌then◌else◌, Eq, ◌==◌}
use perf_loadgen.Base.Words.{Int64, add64, two64}

module _ {K : Type 0} ⦃e : Eq K⦄ where
  -- `m[k]`, zero for a missing key.
  unfoldable pub count_of : K → List (K × Int64) → Int64
  count_of k [] = 0
  count_of k ((j, n) ∷ m) = if j == k then n % two64 else count_of k m

  -- `m[k] += n`.
  unfoldable pub bump : K → Int64 → List (K × Int64) → List (K × Int64)
  bump k n [] = (k, n % two64) ∷ []
  bump k n ((j, i) ∷ m) = if j == k then (j, add64 i n) ∷ m else (j, i) ∷ bump k n m

  -- `for k, n := range from { m[k] += n }`.
  unfoldable pub bump_all : List (K × Int64) → List (K × Int64) → List (K × Int64)
  bump_all [] m = m
  bump_all ((k, n) ∷ from) m = bump_all from (bump k n m)

  pub count_of-bump :
      (k j : K) (n : Int64) (m : List (K × Int64))
      → count_of j (bump k n m) ≡ (if k == j then add64 (count_of j m) n else count_of j m)
  unfolding count_of bump
  count_of-bump k j n [] = ground arith
  count_of-bump k j n ((i, x) ∷ m) =
      ground (arith, e.beq_iff k j, e.beq_iff i k, e.beq_iff i j, count_of-bump k j n m)

  -- What merging a map adds to one of the counters.
  pub added : K → List (K × Int64) → Int64
  added j [] = 0
  added j ((k, n) ∷ from) = if k == j then add64 n (added j from) else added j from

  count_of-lt : (j : K) (m : List (K × Int64)) → count_of j m < two64
  unfolding count_of
  count_of-lt j [] = omega arith
  count_of-lt j ((i, x) ∷ m) = ground (arith, count_of-lt j m)

  pub count_of-bump_all :
      (j : K) (from m : List (K × Int64))
      → count_of j (bump_all from m) ≡ add64 (count_of j m) (added j from)
  unfolding bump_all added
  count_of-bump_all j [] m = omega (arith, count_of-lt j m)
  count_of-bump_all j ((k, n) ∷ from) m =
      ground (arith, count_of-bump_all j from (bump k n m), count_of-bump k j n m)

  pub added-bump :
      (k j : K) (n : Int64) (from : List (K × Int64))
      → added j (bump k n from) ≡ (if k == j then add64 (added j from) n else added j from)
  unfolding added bump
  added-bump k j n [] = ground arith
  added-bump k j n ((i, x) ∷ from) =
      ground (arith, e.beq_iff k j, e.beq_iff i k, e.beq_iff i j, added-bump k j n from)

  -- Counting into the merged map or into the map to be merged comes to the same.
  pub count_of-bump_all-bump :
      (k j : K) (n : Int64) (from m : List (K × Int64))
      → count_of j (bump_all (bump k n from) m) ≡ count_of j (bump k n (bump_all from m))
  count_of-bump_all-bump k j n from m = ground (
    arith,
    count_of-bump_all j (bump k n from) m,
    count_of-bump_all j from m,
    count_of-bump k j n (bump_all from m),
    added-bump k j n from,
  )
