-- ===== src/Base/Clock.antt =====
-- time.Time as nanoseconds since Go's zero time, and time.Duration as an int64 of nanoseconds.
use Prim.Native.Nat.{ℕ, ◌-◌, min}
use mathlib.Core.Bool.{Bool}
use perf_loadgen.Base.Tests.{leb, nat_beq, if◌then◌else◌}
use perf_loadgen.Base.Words.{Int64, two63, two64, mul64, quot64, rem64}
use perf_loadgen.Base.Float.{Float64, Floats}

abbrev pub Time : Type 0
Time = ℕ

abbrev pub Duration : Type 0
Duration = Int64

abbrev pub microsecond : Duration
microsecond = 1000

abbrev pub millisecond : Duration
millisecond = 1_000_000

abbrev pub second : Duration
second = 1_000_000_000

abbrev pub time_is_zero : Time → Bool
time_is_zero t = nat_beq t 0

-- t.Sub(u), which saturates.
unfoldable pub time_sub : Time → Time → Duration
time_sub t u = if leb u t then min (t - u) (two63 - 1) else two64 - min (u - t) two63

-- d.Microseconds().
abbrev pub microseconds : Duration → Int64
microseconds d = quot64 d microsecond

-- time.Duration(n) * time.Microsecond.
abbrev pub of_micros : Int64 → Duration
of_micros n = mul64 n microsecond

-- d.Seconds().
abbrev pub seconds : Floats → Duration → Float64
seconds f d =
    f.fadd (f.of_int (quot64 d second)) (f.fdiv (f.of_int (rem64 d second)) (f.of_int second))
