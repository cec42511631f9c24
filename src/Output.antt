-- ===== src/Output.antt =====
-- internal/output: the reports. Printing numbers and durations is a parameter.
pub mod Retest
pub mod Shell
pub mod Repeat
pub mod Arguments
pub mod Exporter
use perf_loadgen.Base.{ℕ, Text, Int64, Float64, Duration}

-- fmt's %d and %.nf, and Duration.String; and body[:n], which counts bytes.
pub record Format : Type 0 where
  pub int : Int64 → Text
  pub fixed : ℕ → Float64 → Text
  pub duration : Duration → Text
  pub slice : ℕ → Text → Text
