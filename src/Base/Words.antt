-- ===== src/Base/Words.antt =====
-- Go's int64, as the bit pattern of the two's complement: a number below 2^64, whose upper half
-- stands for the negative values. Sums and products wrap.
use Prim.Native.Nat.{ℕ, ◌+◌, ◌-◌, ◌*◌, ◌/◌, ◌%◌, ◌^◌, ◌<◌}
use mathlib.Core.Path.{◌≡◌}
use mathlib.Core.Bool.{Bool}
use native.Mathlib.Omega.{arith}
use native.Mathlib.Nat.{div-add-mod'}
use perf_loadgen.Base.Tests.{ltb, leb, if◌then◌else◌}

abbrev pub Int64 : Type 0
Int64 = ℕ

abbrev pub two63 : ℕ
two63 = 2 ^ 63

abbrev pub two64 : ℕ
two64 = 2 ^ 64

abbrev pub add64 : Int64 → Int64 → Int64
add64 a b = (a + b) % two64

abbrev pub sub64 : Int64 → Int64 → Int64
sub64 a b = (a + two64 - b) % two64

abbrev pub mul64 : Int64 → Int64 → Int64
mul64 a b = (a * b) % two64

abbrev pub neg64 : Int64 → Int64
neg64 a = (two64 - a) % two64

-- The signed order, by a shift of the range.
abbrev pub bias : Int64 → ℕ
bias a = (a + two63) % two64

abbrev pub lt64 : Int64 → Int64 → Bool
lt64 a b = ltb (bias a) (bias b)

abbrev pub le64 : Int64 → Int64 → Bool
le64 a b = leb (bias a) (bias b)

abbrev pub is_pos64 : Int64 → Bool
is_pos64 a = lt64 0 a

-- Go's `/`, which truncates towards zero; the callers test for a zero divisor.
unfoldable pub quot64 : Int64 → Int64 → Int64
quot64 a b =
    if ltb a two63
    then (if ltb b two63 then a / b else neg64 (a / neg64 b))
    else (if ltb b two63 then neg64 (neg64 a / b) else (neg64 a / neg64 b) % two64)

pub quot64_nonneg : (a b : ℕ) → a < two63 → b < two63 → quot64 a b ≡ a / b
unfolding quot64
quot64_nonneg a b ha hb = ground arith

-- Go's `a % b`.
unfoldable pub rem64 : Int64 → Int64 → Int64
unfolding quot64
rem64 a b = sub64 a (mul64 (quot64 a b) b)

what_remains : (a q m : ℕ) → q + m ≡ a → a < two63 → sub64 a (q % two64) ≡ m
what_remains a q m e h = omega arith

remainder : (a b : ℕ) → a < two63 → 0 < b → sub64 a (mul64 (a / b) b) ≡ a % b
remainder a b ha hz = what_remains a (a / b * b) (a % b) (div-add-mod' a b) ha

pub rem64_nonneg : (a b : ℕ) → a < two63 → 0 < b → b < two63 → rem64 a b ≡ a % b
unfolding rem64
rem64_nonneg a b ha hz hb = let e = quot64_nonneg a b ha hb in rw (e, rem64) (remainder a b ha hz)

pub lt64_nonneg : (a b : ℕ) → a < two63 → b < two63 → lt64 a b ≡ ltb a b
lt64_nonneg a b ha hb = ground arith

pub add64_comm : (a b : ℕ) → add64 a b ≡ add64 b a
add64_comm a b = omega arith

pub add64_assoc : (a b c : ℕ) → add64 (add64 a b) c ≡ add64 a (add64 b c)
add64_assoc a b c = omega arith
