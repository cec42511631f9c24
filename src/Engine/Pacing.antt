-- ===== src/Engine/Pacing.antt =====
-- internal/engine/pacer.go: the times that a run with a limit on its rate hands out.
use perf_loadgen.Base.{ℕ, ◌+◌, ◌≤◌, ◌<◌, List, [], ◌∷◌, arith, Time}
use perf_loadgen.Engine.{QpsPacer, reserve}

-- The calls of `Wait`, by whichever workers, in the order in which they get the lock.
unfoldable pub schedule : List Time → QpsPacer → List Time
schedule [] p = []
schedule (now ∷ nows) p = (reserve now p).0 ∷ schedule nows (reserve now p).1

-- Every time comes at least an interval after `from` and after the one before it.
abbrev pub SpacedFrom : ℕ → Time → List Time → Type 0
SpacedFrom interval from [] = Unit {0}
SpacedFrom interval from (t ∷ ts) = (from ≤ t) × SpacedFrom interval (t + interval) ts

-- No caller is scheduled in its past.
abbrev pub NotBefore : List Time → List Time → Type 0
NotBefore (now ∷ nows) (t ∷ ts) = (now ≤ t) × NotBefore nows ts
NotBefore [] [] = Unit {0}
NotBefore _ _ = ⊥

-- The times that the callers of Wait are scheduled for are at least one interval apart, the first
-- is not before the pacer's next time, and none is before the time of its call.
pub schedule-SpacedFrom :
    (nows : List Time) (p : QpsPacer)
    → 0 < p.interval
    → SpacedFrom p.interval p.next (schedule nows p) × NotBefore nows (schedule nows p)
unfolding schedule reserve
schedule-SpacedFrom [] p h = (tt, tt)
schedule-SpacedFrom (now ∷ nows) p h =
    let (spaced, later) = schedule-SpacedFrom nows (reserve now p).1 h in
    ((ground arith, spaced), (ground arith, later))
