-- ===== src/Protocol/Websocket/Chunks.antt =====
-- internal/protocol/websocket/runner.go: what a session measures of the frames that arrive.
use perf_loadgen.Base.{
  two63, ℕ, ◌-◌, ◌<◌, ◌≤◌, ◌≡◌, refl, ap, true, false, Bool-cases, inl, inr, List, [], ◌∷◌, none,
  Floats, Time, nat_beq, length, All, is_empty, trim_space, time_sub,
}
use perf_loadgen.Types.{RequestSpec, RunResult, empty_result, category_none}
use perf_loadgen.Protocol.Timing.{report_timing}
use perf_loadgen.Protocol.Timing.Gaps.{
  arrive_all, IsMonotone, last_of, ticks, Spans, report_timing-ticks,
}
use perf_loadgen.Protocol.Websocket.{Runner, op_close, op_ping}
use perf_loadgen.Protocol.Websocket.Handshake.{Network, dial}
use perf_loadgen.Protocol.Websocket.Session.{
  Frame, Connection, Session, receive, finish, summarize, run, take_frame, no_session, close,
}

-- A frame that neither closes the connection nor wants an answer.
abbrev pub IsData : Frame → Type 0
IsData frame = (nat_beq frame.opcode op_close ≡ false) × (nat_beq frame.opcode op_ping ≡ false)

abbrev take_all : (ℕ → Time) → Session → List Frame → Session
take_all clock s [] = s
take_all clock s (frame ∷ frames) = take_all clock (take_frame clock s frame) frames

receive-take_all :
    (clock : ℕ → Time) (conn : Connection) (s : Session) (frames : List Frame)
    → All IsData frames
    → conn.at_eof ≡ true
    → receive clock conn s frames ≡ close (take_all clock s frames)
unfolding receive
receive-take_all clock conn s [] h e = rw e refl
receive-take_all clock conn s (frame ∷ frames) ((h, k), hs) e =
    rw (h, k) (receive-take_all clock conn (take_frame clock s frame) frames hs e)

timing-take_all :
    (clock : ℕ → Time) (s : Session) (frames : List Frame)
    → (take_all clock s frames).timing ≡ arrive_all s.timing (ticks clock s.readings frames)
unfolding take_frame
timing-take_all clock s [] = refl
timing-take_all clock s (frame ∷ frames) = timing-take_all clock (take_frame clock s frame) frames

module _ (f : Floats) (clock : ℕ → Time) where
  -- The result before the times are filled in.
  abbrev untimed : Session → RunResult
  untimed s = record empty_result {
    success = true;
    error_category = category_none;
    bytes_read = s.bytes_read;
    latency = time_sub (clock s.readings) (clock 0);
  }

  abbrev timed : Session → RunResult
  timed s = report_timing (clock 0) s.timing (untimed s)

  -- The times of a summary are those of its chunks.
  summarize-timing :
      (s : Session)
      → ((summarize f clock s).itl_samples ≡ (timed s).itl_samples)
        × ((summarize f clock s).ttft ≡ (timed s).ttft)
        × ((summarize f clock s).generation_time ≡ (timed s).generation_time)
  unfolding summarize
  summarize-timing s = elim (Bool-cases (is_empty (trim_space s.text))) [
    | inl e ↦ (rw e refl, rw e refl, rw e refl)
    | inr e ↦ (rw e refl, rw e refl, rw e refl)
  ]

  summarize-Spans : (s : Session) (n d : ℕ) → Spans (timed s) n d → Spans (summarize f clock s) n d
  summarize-Spans s n d h = let (a, b, c) = summarize-timing s in rw (a, b, c) h

  run-closed :
      (net : Network) (conn : Connection) (r : Runner) (req : RequestSpec) (frames : List Frame)
      → dial net r req.headers ≡ none
      → conn.send req.body ≡ none
      → conn.frames ≡ frames
      → conn.at_eof ≡ true
      → All IsData frames
      → run f clock net conn r req ≡ finish f clock (close (take_all clock no_session frames))
  unfolding run
  run-closed net conn r req frames d s e eof h =
      rw (d, s, e) (ap (finish f clock) (receive-take_all clock conn no_session frames h eof))

  -- A session that is opened, in which frames of data arrive until the stream ends, on a clock that
  -- does not go back: there is a sample for each frame but the first, the samples add up to the
  -- generation time, and the time to the first frame and the generation time to the last frame's.
  pub run-samples :
      (net : Network) (conn : Connection) (r : Runner) (req : RequestSpec) (frame : Frame)
      (frames : List Frame)
      → dial net r req.headers ≡ none
      → conn.send req.body ≡ none
      → conn.frames ≡ frame ∷ frames
      → conn.at_eof ≡ true
      → All IsData (frame ∷ frames)
      → 0 < clock 1
      → clock 0 ≤ clock 1
      → IsMonotone (clock 1) (ticks clock 2 frames)
      → last_of (clock 1) (ticks clock 2 frames) - clock 0 < two63
      → Spans
          (run f clock net conn r req).0
          (length frames)
          (last_of (clock 1) (ticks clock 2 frames) - clock 0)
  unfolding finish
  run-samples net conn r req frame frames d s e eof h hz hs hm short =
      let all_taken = take_all clock no_session (frame ∷ frames) in
      let shut = record all_taken { saw_close = true } in
      let span = last_of (clock 1) (ticks clock 2 frames) - clock 0 in
      rw (run-closed net conn r req (frame ∷ frames) d s e eof h) (
        summarize-Spans shut (length frames) span (
          report_timing-ticks clock frames shut.timing (untimed shut)
            (timing-take_all clock no_session (frame ∷ frames)) hz hs hm short))
