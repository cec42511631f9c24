-- ===== src/Stats/Histogram/Merging.antt =====
-- Merging histograms: what a master computes from the workers' snapshots.
use perf_loadgen.Base.{
  ℕ, zero, suc, ◌<◌, ◌≡◌, refl, ◌∙◌, ap, sym, List, [], ◌∷◌, ◌++◌, map, arith, length, get_or, set,
  replicate, length-set, length-replicate, All, Int64, two64, add64, add64_assoc, lt64,
  if◌then◌else◌, Duration, microseconds, Floats,
}
use perf_loadgen.Stats.Histogram.{
  Histogram, snapshot, add_counts, merge, bucket_index, record_latency, new,
}
use perf_loadgen.Stats.Histogram.Record.{
  IsShaped, new-IsShaped, bucket_index-lt, total-record_latency,
}

-- A run's latencies, recorded in order.
unfoldable pub record_all : Histogram → List Duration → Histogram
record_all h [] = h
record_all h (d ∷ ds) = record_all (record_latency h d) ds

-- The counters of a fresh histogram over the same bounds.
abbrev pub cleared : Histogram → Histogram
cleared h = record { bounds = h.bounds; counts = replicate (length h.bounds) 0 }

abbrev pub AreWords : List Int64 → Type 0
AreWords = All (λ c. c < two64)

add_counts-set :
    (xs ys : List Int64) (i : ℕ)
    → length xs ≡ length ys
    → i < length xs
    → add_counts xs (set ys i (add64 (get_or ys i 0) 1))
      ≡ set (add_counts xs ys) i (add64 (get_or (add_counts xs ys) i 0) 1)
unfolding add_counts
add_counts-set [] ys i e h = absurd (omega arith)
add_counts-set (x ∷ xs) [] i e h = absurd (omega arith)
add_counts-set (x ∷ xs) (y ∷ ys) zero e h = ap (λ t. t ∷ add_counts xs ys) (sym (add64_assoc x y 1))
add_counts-set (x ∷ xs) (y ∷ ys) (suc i) e h =
    ap (◌∷◌ (add64 x y)) (add_counts-set xs ys i (omega arith) (omega arith))

length-add_counts : (xs ys : List Int64) → length (add_counts xs ys) ≡ length xs
unfolding add_counts
length-add_counts [] ys = refl
length-add_counts (x ∷ xs) [] = refl
length-add_counts (x ∷ xs) (y ∷ ys) = ap suc (length-add_counts xs ys)

add_counts-zero :
    (xs : List Int64) (n : ℕ) → AreWords xs → length xs ≡ n → add_counts xs (replicate n 0) ≡ xs
unfolding add_counts
add_counts-zero [] n w e = refl
add_counts-zero (x ∷ xs) zero w e = refl
add_counts-zero (x ∷ xs) (suc n) w e = ground (arith, add_counts-zero xs n w.1)

add_counts_right_comm :
    (xs ys zs : List Int64) → add_counts (add_counts xs ys) zs ≡ add_counts (add_counts xs zs) ys
unfolding add_counts
add_counts_right_comm [] ys zs = refl
add_counts_right_comm (x ∷ xs) [] [] = refl
add_counts_right_comm (x ∷ xs) [] (z ∷ zs) = refl
add_counts_right_comm (x ∷ xs) (y ∷ ys) [] = refl
add_counts_right_comm (x ∷ xs) (y ∷ ys) (z ∷ zs) = ground (arith, add_counts_right_comm xs ys zs)

abbrev pub of_lists : List Duration → List Int64 → Histogram
of_lists bs cs = record { bounds = bs; counts = cs }

of_lists_eq :
    {bs bs' : List Duration} {cs cs' : List Int64}
    → bs ≡ bs'
    → cs ≡ cs'
    → of_lists bs cs ≡ of_lists bs' cs'
of_lists_eq e f = cc

merge_lists :
    (bs : List Duration) (xs : List Int64) (b : List Int64) (cs : List Int64)
    → length xs ≡ length cs
    → merge (of_lists bs xs) (record { bounds_micros = b; counts = cs })
      ≡ of_lists bs (add_counts xs cs)
unfolding merge
merge_lists bs [] b [] e = refl
merge_lists bs [] b (c ∷ cs) e = absurd (omega arith)
merge_lists bs (x ∷ xs) b [] e = absurd (omega arith)
merge_lists bs (x ∷ xs) b (c ∷ cs) e = ground arith

-- With equally many buckets `Merge` adds the counts.
pub merge_same :
    (h : Histogram) (b : List Int64) (cs : List Int64)
    → length h.counts ≡ length cs
    → merge h (record { bounds_micros = b; counts = cs })
      ≡ record h { counts = add_counts h.counts cs }
merge_same h b cs e = merge_lists h.bounds h.counts b cs e

record_all-add_counts :
    (bs : List Duration) (xs ys : List Int64) (ds : List Duration)
    → 0 < length bs
    → length xs ≡ length bs
    → length ys ≡ length bs
    → add_counts xs (record_all (of_lists bs ys) ds).counts
      ≡ (record_all (of_lists bs (add_counts xs ys)) ds).counts
unfolding record_all record_latency bucket_index
record_all-add_counts bs xs ys [] h e f = refl
record_all-add_counts bs xs ys (d ∷ ds) h e f =
    let i = bucket_index (of_lists bs ys) (if lt64 d 0 then 0 else d) in
    let inside : i < length bs =
      bucket_index-lt (of_lists bs ys) (if lt64 d 0 then 0 else d)
        (record { inhabited = h; paired = f }) in
    record_all-add_counts bs xs (set ys i (add64 (get_or ys i 0) 1)) ds h e
      (length-set ys i (add64 (get_or ys i 0) 1) ∙ f)
    ∙ ap (λ cs. (record_all (of_lists bs cs) ds).counts)
        (add_counts-set xs ys i (e ∙ sym f) (omega arith))

pub record_all-IsShaped :
    (h : Histogram) (ds : List Duration)
    → IsShaped h
    → IsShaped (record_all h ds) × ((record_all h ds).bounds ≡ h.bounds)
unfolding record_all
record_all-IsShaped h [] s = (s, refl)
record_all-IsShaped h (d ∷ ds) s =
    let step = total-record_latency h d s in
    let rest = record_all-IsShaped (record_latency h d) ds step.2 in (rest.0, rest.1 ∙ step.1)

record_all-append :
    (h : Histogram) (ds es : List Duration)
    → record_all h (ds ++ es) ≡ record_all (record_all h ds) es
unfolding record_all
record_all-append h [] es = refl
record_all-append h (d ∷ ds) es = record_all-append (record_latency h d) ds es

-- Merging the snapshot of a worker that began with empty buckets gives the histogram that one
-- process would have after recording the worker's latencies itself, bucket by bucket.
pub merge-record_all :
    (h : Histogram) (ds : List Duration)
    → IsShaped h
    → AreWords h.counts
    → merge h (snapshot (record_all (cleared h) ds)) ≡ record_all h ds
unfolding snapshot
merge-record_all h ds s w =
    let n = length h.bounds in
    let fresh =
      record_all-IsShaped (cleared h) ds
        (record { inhabited = s.inhabited; paired = length-replicate n 0 }) in
    let all = record_all-IsShaped h ds s in
    let same : length h.counts ≡ length (record_all (cleared h) ds).counts =
      s.paired ∙ sym (fresh.0.paired ∙ ap length fresh.1) in
    let counted =
      record_all-add_counts h.bounds h.counts (replicate n 0) ds s.inhabited s.paired
        (length-replicate n 0)
      ∙ ap (λ cs. (record_all (of_lists h.bounds cs) ds).counts)
          (add_counts-zero h.counts n w s.paired) in
    merge_same h (map microseconds (record_all (cleared h) ds).bounds)
      (record_all (cleared h) ds).counts same
    ∙ of_lists_eq (sym all.1) counted

module _ (h : Histogram) (s t : List Int64) (b c : List Int64) where
  -- The order in which two workers' histograms arrive does not matter.
  pub merge_comm :
      length s ≡ length h.counts
      → length t ≡ length h.counts
      → merge
          (merge h (record { bounds_micros = b; counts = s }))
          (record { bounds_micros = c; counts = t })
        ≡ merge
            (merge h (record { bounds_micros = c; counts = t }))
            (record { bounds_micros = b; counts = s })
  merge_comm e f =
      ap (λ g. merge g (record { bounds_micros = c; counts = t })) (merge_same h b s (sym e))
      ∙ merge_same (of_lists h.bounds (add_counts h.counts s)) c t
          (length-add_counts h.counts s ∙ sym f)
      ∙ ap (of_lists h.bounds) (add_counts_right_comm h.counts s t)
      ∙ sym (
          merge_same (of_lists h.bounds (add_counts h.counts t)) b s
            (length-add_counts h.counts t ∙ sym e))
      ∙ ap (λ g. merge g (record { bounds_micros = b; counts = s }))
          (sym (merge_same h c t (sym f)))

sample-add_counts :
    (bs : List Duration) (xs ys : List Int64) (d : Duration)
    → 0 < length bs
    → length xs ≡ length bs
    → length ys ≡ length bs
    → of_lists bs (add_counts xs (record_latency (of_lists bs ys) d).counts)
      ≡ record_latency (of_lists bs (add_counts xs ys)) d
unfolding record_latency bucket_index
sample-add_counts bs xs ys d h e f =
    let i = bucket_index (of_lists bs ys) (if lt64 d 0 then 0 else d) in
    let inside : i < length bs =
      bucket_index-lt (of_lists bs ys) (if lt64 d 0 then 0 else d)
        (record { inhabited = h; paired = f }) in
    ap (of_lists bs) (add_counts-set xs ys i (e ∙ sym f) (omega arith))

-- A histogram over given bounds, with a counter for each.
pub record IsOver (bs : List Duration) (h : Histogram) : Type 0 where
  pub bounds : h.bounds ≡ bs
  pub paired : length h.counts ≡ length bs
  pub inhabited : 0 < length bs
  pub words : AreWords h.counts

set-AreWords :
    (cs : List Int64) (i : ℕ) (c : Int64) → c < two64 → AreWords cs → AreWords (set cs i c)
set-AreWords [] i c h w = tt
set-AreWords (x ∷ cs) zero c h w = (h, w.1)
set-AreWords (x ∷ cs) (suc i) c h w = (w.0, set-AreWords cs i c h w.1)

replicate-AreWords : (n : ℕ) → AreWords (replicate n 0)
replicate-AreWords zero = tt
replicate-AreWords (suc n) = (omega arith, replicate-AreWords n)

pub new-IsOver : (f : Floats) → IsOver (new f).bounds (new f)
unfolding new
new-IsOver f = record {
  bounds = refl;
  paired = (new-IsShaped f).paired;
  inhabited = (new-IsShaped f).inhabited;
  words = replicate-AreWords (length (new f).bounds);
}

module _ (bs : List Duration) where
  pub record_latency-IsOver :
      (h : Histogram) (d : Duration) → IsOver bs h → IsOver bs (record_latency h d)
  unfolding record_latency
  record_latency-IsOver h d v =
      let i = bucket_index h (if lt64 d 0 then 0 else d) in
      let more = add64 (get_or h.counts i 0) 1 in
      record {
        bounds = v.bounds;
        paired = length-set h.counts i more ∙ v.paired;
        inhabited = v.inhabited;
        words = set-AreWords h.counts i more (omega arith) v.words;
      }

  merge_over :
      (h g : Histogram)
      → IsOver bs h
      → IsOver bs g
      → merge h (snapshot g) ≡ of_lists bs (add_counts h.counts g.counts)
  unfolding snapshot
  merge_over h g v w =
      merge_same h (map microseconds g.bounds) g.counts (v.paired ∙ sym w.paired)
      ∙ of_lists_eq v.bounds refl

  record_latency_over :
      (h : Histogram) (d : Duration)
      → IsOver bs h
      → record_latency h d ≡ record_latency (of_lists bs h.counts) d
  record_latency_over h d v =
      ap (λ g. record_latency g d) (of_lists_eq {bs = h.bounds} v.bounds refl)

  -- A sample counts the same before and after merging.
  pub merge-record_latency :
      (h g : Histogram) (d : Duration)
      → IsOver bs h
      → IsOver bs g
      → merge h (snapshot (record_latency g d)) ≡ record_latency (merge h (snapshot g)) d
  merge-record_latency h g d v w =
      merge_over h (record_latency g d) v (record_latency-IsOver g d w)
      ∙ ap (λ l. of_lists bs (add_counts h.counts l.counts)) (record_latency_over g d w)
      ∙ counted
      ∙ ap (λ l. record_latency l d) (sym (merge_over h g v w))
    where
      counted :
          of_lists bs (add_counts h.counts (record_latency (of_lists bs g.counts) d).counts)
          ≡ record_latency (of_lists bs (add_counts h.counts g.counts)) d
      counted = sample-add_counts bs h.counts g.counts d v.inhabited v.paired w.paired

  pub merge-new :
      (h g : Histogram)
      → IsOver bs h
      → g.counts ≡ replicate (length bs) 0
      → IsOver bs g
      → merge h (snapshot g) ≡ h
  merge-new h g v z w =
      merge_over h g v w
      ∙ of_lists_eq (sym v.bounds)
          (ap (add_counts h.counts) z ∙ add_counts-zero h.counts (length bs) v.words v.paired)

pub new-counts : (f : Floats) → (new f).counts ≡ replicate (length (new f).bounds) 0
unfolding new
new-counts f = refl
