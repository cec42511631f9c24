-- ===== src/Protocol/Timing/Gaps.antt =====
-- The loops over the chunks of a response: one sample for each chunk but the first, and what the
-- samples add up to.
use perf_loadgen.Base.{
  ℕ, suc, ◌+◌, ◌-◌, ◌<◌, ◌≤◌, ◌≡◌, refl, ap, ◌∙◌, arith, false, List, [], ◌∷◌, ◌++◌, Time, Duration,
  two63, time_is_zero, time_sub, length, length-append,
}
use perf_loadgen.Types.{RunResult}
use perf_loadgen.Protocol.Timing.{Timing, no_chunks, arrive, report_timing}

-- The chunks at these times.
abbrev pub arrive_all : Timing → List Time → Timing
arrive_all t [] = t
arrive_all t (now ∷ times) = arrive_all (arrive t now) times

-- Times that do not go back, from a first one on.
abbrev pub IsMonotone : Time → List Time → Type 0
IsMonotone t [] = Unit {0}
IsMonotone t (u ∷ times) = (t ≤ u) × IsMonotone u times

-- The readings of the clock from one on, one for each element of a list.
abbrev pub ticks : {A : Type 0} → (ℕ → Time) → ℕ → List A → List Time
ticks clock n [] = []
ticks clock n (x ∷ xs) = clock n ∷ ticks clock (suc n) xs

pub length-ticks :
    {A : Type 0} (clock : ℕ → Time) (n : ℕ) (xs : List A) → length (ticks clock n xs) ≡ length xs
length-ticks clock n [] = refl
length-ticks clock n (x ∷ xs) = ap suc (length-ticks clock (suc n) xs)

abbrev pub last_of : Time → List Time → Time
last_of t [] = t
last_of t (u ∷ times) = last_of u times

abbrev pub total : List Duration → ℕ
total [] = 0
total (d ∷ ds) = d + total ds

-- A result with `n` samples that add up to its generation time, and whose chunks end `d` after the
-- start.
abbrev pub Spans : RunResult → ℕ → ℕ → Type 0
Spans r n d =
    (length r.itl_samples ≡ n)
    × (total r.itl_samples ≡ r.generation_time)
    × (r.ttft + r.generation_time ≡ d)

total-append : (ds es : List Duration) → total (ds ++ es) ≡ total ds + total es
total-append [] es = omega arith
total-append (d ∷ ds) es = omega (arith, total-append ds es)

last_of-le : (t : Time) (times : List Time) → IsMonotone t times → t ≤ last_of t times
last_of-le t [] h = omega arith
last_of-le t (u ∷ times) (h, hs) = omega (arith, h, last_of-le u times hs)

time_sub-later : (t u : Time) → t ≤ u → u - t < two63 → time_sub u t ≡ u - t
unfolding time_sub
time_sub-later t u h k = ground arith

-- The state after a chunk at `p`, where the first one came at `q`.
abbrev IsAt : Time → Time → ℕ → Timing → Type 0
IsAt q p n t =
    (t.first ≡ q)
    × (t.last ≡ p)
    × (t.previous ≡ p)
    × (length t.samples ≡ n)
    × (q + total t.samples ≡ p)

-- The samples after a chunk that is not the first.
one_more :
    (ds : List Duration) (q p n now v : ℕ)
    → p ≤ now
    → now - p < two63
    → v ≡ p
    → length ds ≡ n
    → q + total ds ≡ p
    → (length (ds ++ time_sub now v ∷ []) ≡ suc n) × (q + total (ds ++ time_sub now v ∷ []) ≡ now)
one_more ds q p n now v h k e c s = (
  omega (arith, length-append ds (time_sub now v ∷ [])),
  omega (arith, total-append ds (time_sub now v ∷ []), gap),
)
  where
    gap : time_sub now v ≡ now - p
    gap = rw e (time_sub-later p now h k)

started : (t q : ℕ) → t ≡ q → 0 < q → time_is_zero t ≡ false
started t q e h = ground arith

arrive-IsAt :
    (q p n now : ℕ) (t : Timing)
    → 0 < q
    → p ≤ now
    → now - p < two63
    → IsAt q p n t
    → IsAt q now (suc n) (arrive t now)
unfolding arrive
arrive-IsAt q p n now t hq h k (f, l, v, c, s) =
    let (c', s') = one_more t.samples q p n now t.previous h k v c s in
    rw (started t.first q f hq) (f, refl, refl, c', s')

arrive_all-IsAt :
    (q p n : ℕ) (t : Timing) (times : List Time)
    → 0 < q
    → IsMonotone p times
    → last_of p times - p < two63
    → IsAt q p n t
    → IsAt q (last_of p times) (n + length times) (arrive_all t times)
arrive_all-IsAt q p n t [] hq h short (f, l, v, c, s) = (f, l, v, omega arith, s)
arrive_all-IsAt q p n t (now ∷ times) hq (h, hs) short at =
    let later = last_of-le now times hs in
    let (f, l, v, c, s) =
      arrive_all-IsAt q now (suc n) (arrive t now) times hq hs (omega (arith, h, short, later))
        (arrive-IsAt q p n now t hq h (omega (arith, h, short, later)) at) in
    (f, l, v, omega (arith, c), s)

first_chunk : (t : Time) → IsAt t t 0 (arrive no_chunks t)
unfolding arrive
first_chunk t = (refl, refl, refl, refl, omega arith)

reported :
    (start q p n : ℕ) (t : Timing) (r : RunResult)
    → 0 < q
    → start ≤ q
    → q ≤ p
    → p - start < two63
    → IsAt q p n t
    → Spans (report_timing start t r) n (p - start)
unfolding report_timing
reported start q p n t r hq hs k b (f, l, v, c, s) =
    rw (f, l, nonzero q hq, nonzero p (omega arith), later, sooner)
      (c, omega (arith, s), omega arith)
  where
    nonzero : (t : Time) → 0 < t → time_is_zero t ≡ false
    nonzero t h = ground arith

    later : time_sub p q ≡ p - q
    later = time_sub-later q p k (omega (arith, hs, k, b))

    sooner : time_sub q start ≡ q - start
    sooner = time_sub-later start q hs (omega (arith, hs, k, b))

-- Where the first chunk comes at a time after the clock's zero, time does not go back, and the last
-- chunk comes less than 2^63 nanoseconds after the start: there is a
-- sample for each chunk but the first, they add up to the generation time, the time to the first
-- chunk and the generation time add up to the time from the start to the last chunk.
pub report_timing-arrive_all :
    (start t : Time) (times : List Time) (r : RunResult)
    → 0 < t
    → start ≤ t
    → IsMonotone t times
    → last_of t times - start < two63
    → Spans
        (report_timing start (arrive_all no_chunks (t ∷ times)) r)
        (length times)
        (last_of t times - start)
report_timing-arrive_all start t times r ht hs h short =
    let k = last_of-le t times h in
    let counted : 0 + length times ≡ length times = omega arith in
    reported start t (last_of t times) (length times) (arrive_all (arrive no_chunks t) times) r ht
      hs k short
      (rw⁻¹ counted (
        arrive_all-IsAt t t 0 (arrive no_chunks t) times ht h (omega (arith, hs, k, short))
          (first_chunk t)))

-- The same for a timing whose chunks came at the clock's readings from the second on.
pub report_timing-ticks :
    {A : Type 0} (clock : ℕ → Time) (chunks : List A) (t : Timing) (r : RunResult)
    → t ≡ arrive_all no_chunks (clock 1 ∷ ticks clock 2 chunks)
    → 0 < clock 1
    → clock 0 ≤ clock 1
    → IsMonotone (clock 1) (ticks clock 2 chunks)
    → last_of (clock 1) (ticks clock 2 chunks) - clock 0 < two63
    → Spans
        (report_timing (clock 0) t r)
        (length chunks)
        (last_of (clock 1) (ticks clock 2 chunks) - clock 0)
report_timing-ticks clock chunks t r e hz hs hm short =
    let (x, y, z) =
      report_timing-arrive_all (clock 0) (clock 1) (ticks clock 2 chunks) r hz hs hm short in
    rw e (x ∙ length-ticks clock 2 chunks, y, z)
