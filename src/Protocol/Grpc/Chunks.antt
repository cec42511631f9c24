-- ===== src/Protocol/Grpc/Chunks.antt =====
-- internal/protocol/grpc/runner_stream.go: what a stream measures of its messages.
use perf_loadgen.Base.{
  two63, ℕ, ◌-◌, ◌<◌, ◌≤◌, ◌≡◌, refl, true, List, [], ◌∷◌, none, Floats, Time, length, ok, Text,
  time_sub,
}
use perf_loadgen.Types.{RequestSpec, RunResult, empty_result, category_none}
use perf_loadgen.Protocol.Timing.{report_timing}
use perf_loadgen.Protocol.Timing.Gaps.{
  arrive_all, IsMonotone, last_of, ticks, Spans, report_timing-ticks,
}
use perf_loadgen.Protocol.Grpc.{Options, full_method, Codec, build_input}
use perf_loadgen.Protocol.Grpc.Stream.{
  Connection, Progress, no_progress, take_chunk, take_chunks, summarize, run,
}

module _ {Message : Type 0} (f : Floats) (codec : Codec Message) (clock : ℕ → Time) where
  timing-take_chunks :
      (token_field : Text) (p : Progress) (chunks : List Message)
      → (take_chunks f codec clock token_field p chunks).timing
        ≡ arrive_all p.timing (ticks clock p.readings chunks)
  unfolding take_chunk
  timing-take_chunks token_field p [] = refl
  timing-take_chunks token_field p (chunk ∷ chunks) =
      timing-take_chunks token_field (take_chunk f codec clock token_field p chunk) chunks

  abbrev untimed : Progress → RunResult
  untimed p = record empty_result {
    success = true;
    error_category = category_none;
    bytes_read = p.bytes_read;
    latency = time_sub (clock p.readings) (clock 0);
  }

  summarize-Spans :
      (p : Progress) (n d : ℕ)
      → Spans (report_timing (clock 0) p.timing (untimed p)) n d
      → Spans (summarize f codec clock p) n d
  unfolding summarize
  summarize-Spans p n d h = h

  run-opened :
      (conn : Connection Message) (opts : Options) (req : RequestSpec) (input : Message)
      → build_input codec req.body ≡ ok input
      → conn.new_stream (full_method opts) ≡ none
      → conn.send input ≡ none
      → conn.close_send ≡ none
      → conn.failure ≡ none
      → run f codec clock conn opts req ≡ (
        summarize f codec clock
            (take_chunks f codec clock opts.token_field no_progress conn.received),
        none,
      )
  unfolding run
  run-opened conn opts req input a b c d e = rw (a, b, c, d, e) refl

  -- A stream that is opened and whose messages arrive until io.EOF, on a clock that does not go back, in
  -- less than 2^63 nanoseconds:
  -- there is a sample for each message but the first, the samples add up to the generation time, and
  -- the time to the first message and the generation time to the last message's.
  pub run-Spans :
      (conn : Connection Message) (opts : Options) (req : RequestSpec) (input chunk : Message)
      (chunks : List Message)
      → build_input codec req.body ≡ ok input
      → conn.new_stream (full_method opts) ≡ none
      → conn.send input ≡ none
      → conn.close_send ≡ none
      → conn.failure ≡ none
      → conn.received ≡ chunk ∷ chunks
      → 0 < clock 1
      → clock 0 ≤ clock 1
      → IsMonotone (clock 1) (ticks clock 2 chunks)
      → last_of (clock 1) (ticks clock 2 chunks) - clock 0 < two63
      → Spans
          (run f codec clock conn opts req).0
          (length chunks)
          (last_of (clock 1) (ticks clock 2 chunks) - clock 0)
  run-Spans conn opts req input chunk chunks a b c d e received hz hs hm short =
      let p = take_chunks f codec clock opts.token_field no_progress (chunk ∷ chunks) in
      let span = last_of (clock 1) (ticks clock 2 chunks) - clock 0 in
      rw (run-opened conn opts req input a b c d e, received)
        (summarize-Spans p (length chunks) span (
          report_timing-ticks clock chunks p.timing (untimed p)
            (timing-take_chunks opts.token_field no_progress (chunk ∷ chunks)) hz hs hm short))
