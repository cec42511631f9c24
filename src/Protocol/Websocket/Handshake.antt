-- ===== src/Protocol/Websocket/Handshake.antt =====
-- internal/protocol/websocket/runner.go: dial, and the request that it writes.
use perf_loadgen.Base.{
  ℕ, ◌+◌, Bool, ◌||◌, [], ◌∷◌, ◌++◌, Option, none, some, Text, Int64, codes, text_beq, is_empty,
  trim_prefix, trim_space, contains, index_of, to_lower, take, drop, nat_beq, if◌then◌else◌, Result,
  err, ok,
}
use perf_loadgen.Protocol.Httputil.{GoError, new_error, wrap_error, Headers, header_get}
use perf_loadgen.Protocol.Websocket.{Runner}

-- `s[:i]` and `s[i:]` at the first slash, if there is one.
abbrev pub up_to : Text → Option ℕ → Text
up_to s none = s
up_to s (some i) = take i s

abbrev pub from_index : Text → Option ℕ → Text
from_index s none = codes "/"
from_index s (some i) = drop i s

-- The part behind "://", if that occurs.
abbrev pub behind_scheme : Text → Option ℕ → Text
behind_scheme s none = s
behind_scheme s (some i) = drop (i + 3) s

abbrev pub without_scheme : Text → Text
without_scheme s = behind_scheme s (index_of s (codes "://"))

unfoldable pub dial_address : Runner → Text
unfolding trim_prefix index_of contains
dial_address r =
    let bare = trim_prefix (trim_prefix r.target (codes "ws://")) (codes "wss://") in
    let target = up_to bare (index_of bare (codes "/")) in
    let port = if r.use_tls then codes "443" else codes "80" in
    if contains target (codes ":") then target else target ++ codes ":" ++ port

unfoldable pub handshake_host : Runner → Text
unfolding index_of
handshake_host r = let rest = without_scheme r.target in up_to rest (index_of rest (codes "/"))

-- In a target without "://" the path begins at its first slash as well.
unfoldable pub handshake_path : Runner → Text
unfolding index_of
handshake_path r = let rest = without_scheme r.target in from_index rest (index_of rest (codes "/"))

unfoldable pub is_reserved_handshake_header : Text → Bool
unfolding to_lower
is_reserved_handshake_header key =
    let k = to_lower key in
    text_beq k (codes "host")
    || text_beq k (codes "upgrade")
    || text_beq k (codes "connection")
    || text_beq k (codes "sec-websocket-key")
    || text_beq k (codes "sec-websocket-version")
    || text_beq k (codes "sec-websocket-protocol")

abbrev pub crlf : Text
crlf = 13 ∷ 10 ∷ []

abbrev pub header_line : Text → Text → Text
header_line key value = key ++ codes ": " ++ value ++ crlf

-- The loop over the headers of the request, in the order of the iteration.
unfoldable pub header_lines : Headers → Text
unfolding trim_space is_reserved_handshake_header
header_lines [] = []
header_lines ((name, given) ∷ headers) =
    let key = trim_space name in
    let rest = header_lines headers in
    if is_empty key || is_reserved_handshake_header key
    then rest
    else header_line key (trim_space given) ++ rest

unfoldable pub handshake_request : Runner → Text → Headers → Text
unfolding handshake_path handshake_host header_lines
handshake_request r key headers =
    codes "GET "
    ++ handshake_path r
    ++ codes " HTTP/1.1"
    ++ crlf
    ++ header_line (codes "Host") (handshake_host r)
    ++ header_line (codes "Upgrade") (codes "websocket")
    ++ header_line (codes "Connection") (codes "Upgrade")
    ++ header_line (codes "Sec-WebSocket-Key") key
    ++ header_line (codes "Sec-WebSocket-Version") (codes "13")
    ++ (if is_empty r.subproto then [] else header_line (codes "Sec-WebSocket-Protocol") r.subproto)
    ++ header_lines headers
    ++ crlf

pub record UpgradeResponse : Type 0 where
  pub status_code : Int64
  pub status : Text
  pub headers : Headers

-- Sockets, the random key in Base64, and SHA-1 followed by Base64.
pub record Network : Type 0 where
  pub connect : Bool → Text → Option GoError
  pub random_key : Result GoError Text
  pub write : Text → Option GoError
  pub read_response : Result GoError UpgradeResponse
  pub sha1_base64 : Text → Text

abbrev pub compute_accept_key : Network → Text → Text
compute_accept_key net key = net.sha1_base64 (key ++ codes "258EAFA5-E914-47DA-95CA-C5AB0DC85B11")

-- `none` for a response that upgrades the connection.
unfoldable pub refusal : Network → Text → UpgradeResponse → Option GoError
unfolding header_get
refusal net key resp =
    if nat_beq resp.status_code 101
    then (if text_beq (header_get resp.headers (codes "Sec-WebSocket-Accept"))
          (compute_accept_key net key)
        then none
        else some (new_error (codes "websocket: invalid accept key")))
    else some (new_error (codes "websocket upgrade failed: " ++ resp.status))

-- `none` for an open connection.
unfoldable pub dial : Network → Runner → Headers → Option GoError
unfolding dial_address handshake_request refusal
dial net r headers = elim (net.connect r.use_tls (dial_address r)) [
  | some e ↦ some e
  | none ↦ elim net.random_key [
    | err e ↦ some (wrap_error (codes "websocket: generate key: ") e)
    | ok key ↦ elim (net.write (handshake_request r key headers)) [
      | some e ↦ some e
      | none ↦ elim net.read_response [ err e ↦ some e | ok resp ↦ refusal net key resp ]
    ]
  ]
]
