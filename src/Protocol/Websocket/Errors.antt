-- ===== src/Protocol/Websocket/Errors.antt =====
-- internal/protocol/websocket/runner.go: the outcomes of Run.
use perf_loadgen.Base.{
  ℕ, ◌≡◌, refl, true, false, ◌||◌, Bool-cases, Option-cases, inl, inr, List, [], ◌∷◌, Option, none,
  some, Floats, Time, nat_beq, is_empty, trim_space,
}
use perf_loadgen.Types.{RequestSpec}
use perf_loadgen.Protocol.Httputil.{GoError, Outcome, failed_result}
use perf_loadgen.Protocol.Httputil.Reported.{IsReported, classify_request_error-none}
use perf_loadgen.Protocol.Timing.{report_timing}
use perf_loadgen.Protocol.Websocket.{Runner, is_close_error, op_close, op_ping}
use perf_loadgen.Protocol.Websocket.Handshake.{Network, dial}
use perf_loadgen.Protocol.Websocket.Session.{
  Frame, Connection, Session, Ended, closed, broken, receive, finish, summarize, run, take_frame,
  after_pong, no_session,
}

-- Every `break` leaves the loop with the flag set.
abbrev HasClosed : Ended → Type 0
HasClosed (closed s) = s.saw_close ≡ true
HasClosed (broken e s) = Unit

after_pong-HasClosed :
    (answer : Option GoError) (s : Session) (rest : Ended)
    → HasClosed rest
    → HasClosed (after_pong answer s rest)
after_pong-HasClosed none s rest h = h
after_pong-HasClosed (some e) s rest h = tt

receive-HasClosed :
    (clock : ℕ → Time) (conn : Connection) (s : Session) (frames : List Frame)
    → HasClosed (receive clock conn s frames)
unfolding receive
receive-HasClosed clock conn s [] = elim (Bool-cases (conn.at_eof || is_close_error conn.failure)) [
  | inl e ↦ rw e refl
  | inr e ↦ rw e tt
]
receive-HasClosed clock conn s (frame ∷ frames) =
    let rest = receive-HasClosed clock conn (take_frame clock s frame) frames in
    elim (Bool-cases (nat_beq frame.opcode op_close)) [
      | inl e ↦ rw e refl
      | inr e ↦ elim (Bool-cases (nat_beq frame.opcode op_ping)) [
        | inl d ↦ rw (e, d) (after_pong-HasClosed (conn.pong frame.payload) _ _ rest)
        | inr d ↦ rw (e, d) rest
      ]
    ]

-- A result without an error is not an aborted stream.
abbrev IsUnaborted : Outcome → Type 0
IsUnaborted (r, none) = r.streaming_aborted ≡ false
IsUnaborted (r, some e) = Unit

module _ (f : Floats) (clock : ℕ → Time) where
  finish-IsReported :
      (ended : Ended)
      → HasClosed ended
      → IsReported (finish f clock ended) × IsUnaborted (finish f clock ended)
  unfolding finish summarize report_timing
  finish-IsReported (closed s) h = elim (Bool-cases (is_empty (trim_space s.text))) [
    | inl e ↦ rw (h, e) ((refl, refl), refl)
    | inr e ↦ rw (h, e) ((refl, refl), refl)
  ]
  finish-IsReported (broken e s) h = ((refl, classify_request_error-none e, refl), tt)

  -- The two parts of an outcome agree: no error, success and the category none, or an error, no
  -- success, another category and the error's message; and without an error the stream never counts
  -- as aborted, whether a close frame came or not.
  pub run-IsReported :
      (net : Network) (conn : Connection) (r : Runner) (req : RequestSpec)
      → IsReported (run f clock net conn r req) × IsUnaborted (run f clock net conn r req)
  unfolding run failed_result
  run-IsReported net conn r req = elim (Option-cases (dial net r req.headers)) [
    | inr (e, d) ↦ rw d ((refl, classify_request_error-none e, refl), tt)
    | inl d ↦ elim (Option-cases (conn.send req.body)) [
      | inr (e, s) ↦ rw (d, s) ((refl, classify_request_error-none e, refl), tt)
      | inl s ↦
          rw (d, s)
            (finish-IsReported (receive clock conn no_session conn.frames)
              (receive-HasClosed clock conn no_session conn.frames))
    ]
  ]
