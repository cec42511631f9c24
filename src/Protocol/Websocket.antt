-- ===== src/Protocol/Websocket.antt =====
-- internal/protocol/websocket/runner.go: one session of a WebSocket: the handshake, the request as a
-- text frame, and the frames of the server until it closes. Payloads are texts in UTF-8; sockets,
-- SHA-1 and Base64 are parameters.
pub mod Handshake
pub mod Session
pub mod Errors
pub mod Target
pub mod Chunks
use perf_loadgen.Base.{
  ℕ, suc, Bool, true, false, not, ◌&&◌, ◌||◌, List, [], ◌∷◌, ◌++◌, Option, none, some, Text, Int64,
  Duration, codes, is_empty, has_prefix, contains, if◌then◌else◌,
}
use perf_loadgen.Protocol.Httputil.{GoError}

abbrev pub op_text : ℕ
op_text = 1

abbrev pub op_close : ℕ
op_close = 8

abbrev pub op_ping : ℕ
op_ping = 9

-- The TLS configuration is left out.
pub record Runner : Type 0 where
  pub target : Text
  pub subproto : Text
  pub conn_deadline : Duration
  pub use_tls : Bool

unfoldable pub new_runner : Text → Text → Duration → Runner
unfolding has_prefix
new_runner target subproto timeout = record {
  target = target;
  subproto = subproto;
  conn_deadline = timeout;
  use_tls = has_prefix target (codes "wss://");
}

-- For an error that is not nil.
unfoldable pub is_close_error : GoError → Bool
unfolding contains
is_close_error e = contains e.message (codes "close") || contains e.message (codes "closed")
