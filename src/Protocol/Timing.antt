-- ===== src/Protocol/Timing.antt =====
-- The times of the chunks of a response, as the loops of httpstream/runner.go, grpc/runner_stream.go
-- and websocket/runner.go keep them.
pub mod Gaps
use perf_loadgen.Base.{
  ◌&&◌, not, List, [], ◌∷◌, ◌++◌, Time, Duration, time_is_zero, time_sub, if◌then◌else◌,
}
use perf_loadgen.Types.{RunResult}

pub record Timing : Type 0 where
  pub first : Time
  pub last : Time
  pub previous : Time
  pub samples : List Duration

abbrev pub no_chunks : Timing
no_chunks = record { first = 0; last = 0; previous = 0; samples = [] }

-- A chunk arrives.
unfoldable pub arrive : Timing → Time → Timing
unfolding time_sub
arrive t now = record {
  first = if time_is_zero t.first then now else t.first;
  last = now;
  previous = now;
  samples = if time_is_zero t.first then t.samples else t.samples ++ time_sub now t.previous ∷ [];
}

-- The times of the result, for the start of the request.
unfoldable pub report_timing : Time → Timing → RunResult → RunResult
unfolding time_sub
report_timing start t r = record r {
  ttft = if time_is_zero t.first then r.ttft else time_sub t.first start;
  generation_time =
      if not (time_is_zero t.last) && not (time_is_zero t.first)
      then time_sub t.last t.first
      else r.generation_time;
  itl_samples = t.samples;
}
