-- ===== src/Base/Float.antt =====
-- float64 as its IEEE 754 bit pattern. The arithmetic of the hardware is a parameter: a record of
-- operations, of which a theorem states the laws that it needs.
use Prim.Native.Nat.{ℕ, ◌+◌, ◌-◌, ◌*◌, ◌/◌}
use mathlib.Core.Bool.{Bool}
use perf_loadgen.Base.Tests.{ltb, leb}
use perf_loadgen.Base.Words.{Int64}

abbrev pub Float64 : Type 0
Float64 = ℕ

pub record Floats : Type 0 where
  pub of_int : Int64 → Float64
  pub fadd : Float64 → Float64 → Float64
  pub fsub : Float64 → Float64 → Float64
  pub fmul : Float64 → Float64 → Float64
  pub fdiv : Float64 → Float64 → Float64
  pub flt : Float64 → Float64 → Bool
  pub fle : Float64 → Float64 → Bool
  -- The constant `n / d` of the source.
  pub lit : ℕ → ℕ → Float64
  -- `int64(math.Ceil(x))` and `int64(x)`.
  pub ceil_int : Float64 → Int64
  pub trunc_int : Float64 → Int64

-- Numbers in thousandths, rounded down: an instance to run the model on.
abbrev pub thousandths : Floats
thousandths = record {
  of_int = λ n. n * 1000;
  fadd = λ a b. a + b;
  fsub = λ a b. a - b;
  fmul = λ a b. a * b / 1000;
  fdiv = λ a b. a * 1000 / b;
  flt = ltb;
  fle = leb;
  lit = λ n d. n * 1000 / d;
  ceil_int = λ a. (a + 999) / 1000;
  trunc_int = λ a. a / 1000;
}
