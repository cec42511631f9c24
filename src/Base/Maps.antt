-- ===== src/Base/Maps.antt =====
-- Go maps as association lists: a new key goes to the end, a known key keeps its place.
use Prim.Native.Nat.{◌≤◌}
use mathlib.Core.Logic.{inl, inr}
use mathlib.Core.Path.{◌≡◌, refl}
use mathlib.Core.Bool.{false}
use mathlib.Core.List.{List, [], ◌∷◌, ◌++◌, map}
use mathlib.Core.Option.{Option, none, some}
use native.Mathlib.Omega.{arith}
use perf_loadgen.Base.Tests.{Bool-cases, if◌then◌else◌, Eq, ◌==◌}
use perf_loadgen.Base.Lists.{All, length}

module _ {K V : Type 0} where
  abbrev pub keys : List (K × V) → List K
  keys = map (λ e. e.0)

abbrev pub map_some : {V : Type 0} → (V → V) → Option V → Option V
map_some g none = none
map_some g (some v) = some (g v)

module _ {K V : Type 0} ⦃e : Eq K⦄ where
  unfoldable pub lookup : K → List (K × V) → Option V
  lookup k [] = none
  lookup k ((j, v) ∷ m) = if j == k then some v else lookup k m

  -- `m[k] = v`.
  unfoldable pub put : K → V → List (K × V) → List (K × V)
  put k v [] = (k, v) ∷ []
  put k v ((j, w) ∷ m) = if j == k then (j, v) ∷ m else (j, w) ∷ put k v m

  -- A change to what `m[k]` points to; nothing, where the key is missing.
  unfoldable pub modify : K → (V → V) → List (K × V) → List (K × V)
  modify k g [] = []
  modify k g ((j, w) ∷ m) = if j == k then (j, g w) ∷ m else (j, w) ∷ modify k g m

  -- `delete(m, k)`.
  unfoldable pub delete : K → List (K × V) → List (K × V)
  delete k [] = []
  delete k ((j, w) ∷ m) = if j == k then m else (j, w) ∷ delete k m

  pub lookup-put :
      (k j : K) (v : V) (m : List (K × V))
      → lookup j (put k v m) ≡ (if k == j then some v else lookup j m)
  unfolding lookup put
  lookup-put k j v [] = refl
  lookup-put k j v ((i, w) ∷ m) =
      ground (arith, e.beq_iff k j, e.beq_iff i k, e.beq_iff i j, lookup-put k j v m)

  pub lookup-modify :
      (k j : K) (g : V → V) (m : List (K × V))
      → lookup j (modify k g m) ≡ (if k == j then map_some g (lookup j m) else lookup j m)
  unfolding lookup modify
  lookup-modify k j g [] = ground arith
  lookup-modify k j g ((i, w) ∷ m) =
      ground (arith, e.beq_iff k j, e.beq_iff i k, e.beq_iff i j, lookup-modify k j g m)

  pub keys-modify : (k : K) (g : V → V) (m : List (K × V)) → keys (modify k g m) ≡ keys m
  unfolding modify
  keys-modify k g [] = refl
  keys-modify k g ((j, w) ∷ m) = ground (arith, keys-modify k g m)

  pub put_fresh :
      (k : K) (v : V) (m : List (K × V)) → lookup k m ≡ none → put k v m ≡ m ++ (k, v) ∷ []
  unfolding lookup put
  put_fresh k v [] h = refl
  put_fresh k v ((j, w) ∷ m) h = ground (arith, put_fresh k v m)

  pub length-modify : (k : K) (g : V → V) (m : List (K × V)) → length (modify k g m) ≡ length m
  unfolding modify
  length-modify k g [] = refl
  length-modify k g ((j, w) ∷ m) = ground (arith, length-modify k g m)

  -- The keys are distinct.
  abbrev pub AreDistinct : List (K × V) → Type 0
  AreDistinct [] = Unit {0}
  AreDistinct ((k, v) ∷ m) = (lookup k m ≡ none) × AreDistinct m

  pub modify-AreDistinct :
      (k : K) (g : V → V) (m : List (K × V)) → AreDistinct m → AreDistinct (modify k g m)
  unfolding modify
  modify-AreDistinct k g [] d = tt
  modify-AreDistinct k g ((j, w) ∷ m) (h, d) =
      ground (arith, lookup-modify k j g m, modify-AreDistinct k g m d)

  lookup-append :
      (k j : K) (v : V) (m : List (K × V))
      → lookup j m ≡ none
      → (j == k) ≡ false
      → lookup j (m ++ (k, v) ∷ []) ≡ none
  unfolding lookup
  lookup-append k j v [] h n = ground (arith, e.beq_iff j k, e.beq_iff k j)
  lookup-append k j v ((i, w) ∷ m) h n = ground (arith, lookup-append k j v m)

  lookup-none_here :
      (k j : K) (w : V) (m : List (K × V))
      → lookup k ((j, w) ∷ m) ≡ none
      → ((j == k) ≡ false) × (lookup k m ≡ none)
  unfolding lookup
  lookup-none_here k j w m h = ground arith

  pub append-AreDistinct :
      (k : K) (v : V) (m : List (K × V))
      → AreDistinct m
      → lookup k m ≡ none
      → AreDistinct (m ++ (k, v) ∷ [])
  unfolding lookup
  append-AreDistinct k v [] d h = (refl, tt)
  append-AreDistinct k v ((j, w) ∷ m) (i, d) h =
      let (other, rest) = lookup-none_here k j w m h in
      (lookup-append k j v m i other, append-AreDistinct k v m d rest)

  pub All-modify :
      (P : K × V → Type 0) (k : K) (g : V → V) (m : List (K × V))
      → ((v : V) → P (k, v) → P (k, g v))
      → All P m
      → All P (modify k g m)
  unfolding modify
  All-modify P k g [] step a = tt
  All-modify P k g ((j, w) ∷ m) step (p, a) =
      ground (arith, e.beq_iff j k, step w, All-modify P k g m step a)

  delete-lookup : (k j : K) (m : List (K × V)) → lookup j m ≡ none → lookup j (delete k m) ≡ none
  unfolding delete lookup
  delete-lookup k j [] h = refl
  delete-lookup k j ((i, w) ∷ m) h = ground (arith, delete-lookup k j m)

  pub delete-AreDistinct : (k : K) (m : List (K × V)) → AreDistinct m → AreDistinct (delete k m)
  unfolding delete
  delete-AreDistinct k [] d = tt
  delete-AreDistinct k ((j, w) ∷ m) (h, d) = elim (Bool-cases (j == k)) [
    | inl here ↦ rw here d
    | inr there ↦ rw there (delete-lookup k j m h, delete-AreDistinct k m d)
  ]

  pub length-delete : (k : K) (m : List (K × V)) → length (delete k m) ≤ length m
  unfolding delete
  length-delete k [] = omega arith
  length-delete k ((j, w) ∷ m) = elim (Bool-cases (j == k)) [
    | inl here ↦ rw here (omega arith)
    | inr there ↦ rw there (omega (arith, length-delete k m))
  ]
