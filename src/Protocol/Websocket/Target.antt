-- ===== src/Protocol/Websocket/Target.antt =====
-- internal/protocol/websocket/runner.go: what dial makes of the parts of a target.
use perf_loadgen.Base.{
  ℕ, ◌≡◌, refl, arith, Bool, true, false, [], ◌∷◌, ◌++◌, append_assoc, some, Text, Duration, codes,
  nat_beq, has_prefix, trim_prefix, contains, index_of, length, take_append, drop_append, All,
  if◌then◌else◌,
}
use perf_loadgen.Protocol.Websocket.{Runner, new_runner}
use perf_loadgen.Protocol.Websocket.Handshake.{
  dial_address, handshake_host, handshake_path, up_to, from_index, without_scheme,
}

-- A host without a port.
abbrev pub IsPlain : ℕ → Type 0
IsPlain c = (nat_beq c 47 ≡ false) × (nat_beq c 58 ≡ false)

index_of-slash :
    (host p : Text)
    → All IsPlain host
    → index_of (host ++ (47 ∷ p)) (codes "/") ≡ some (length host)
unfolding index_of has_prefix
index_of-slash [] p h = refl
index_of-slash (c ∷ host) p ((h, _), hs) = rw (h, index_of-slash host p hs) refl

contains-colon : (host : Text) → All IsPlain host → contains host (codes ":") ≡ false
unfolding contains has_prefix
contains-colon [] h = refl
contains-colon (c ∷ host) ((_, h), hs) = rw h (contains-colon host hs)

no_scheme :
    (host p : Text) → All IsPlain host → has_prefix (host ++ (47 ∷ p)) (codes "wss://") ≡ false
unfolding has_prefix
no_scheme [] p h = refl
no_scheme (a ∷ []) p h = ground arith
no_scheme (a ∷ b ∷ []) p h = ground arith
no_scheme (a ∷ b ∷ c ∷ []) p h = ground arith
no_scheme (a ∷ b ∷ c ∷ d ∷ host) p (_, (_, (_, ((_, h), _)))) = rw h (ground arith)

abbrev pub scheme : Bool → Text
scheme true = codes "wss://"
scheme false = codes "ws://"

abbrev pub port : Bool → Text
port true = codes ":443"
port false = codes ":80"

abbrev pub target_of : Bool → Text → Text → Text
target_of tls host p = scheme tls ++ (host ++ (47 ∷ p))

bare_target :
    (tls : Bool) (host p : Text)
    → All IsPlain host
    → trim_prefix (trim_prefix (target_of tls host p) (codes "ws://")) (codes "wss://")
      ≡ host ++ (47 ∷ p)
unfolding trim_prefix has_prefix
bare_target true host p h = refl
bare_target false host p h = rw (no_scheme host p h) refl

behind : (tls : Bool) (host p : Text) → without_scheme (target_of tls host p) ≡ host ++ (47 ∷ p)
unfolding index_of has_prefix
behind true host p = refl
behind false host p = refl

cut_host :
    (host p : Text)
    → All IsPlain host
    → up_to (host ++ (47 ∷ p)) (index_of (host ++ (47 ∷ p)) (codes "/")) ≡ host
cut_host host p h = rw (index_of-slash host p h) (take_append host (47 ∷ p))

cut_path :
    (host p : Text)
    → All IsPlain host
    → from_index (host ++ (47 ∷ p)) (index_of (host ++ (47 ∷ p)) (codes "/")) ≡ 47 ∷ p
cut_path host p h = rw (index_of-slash host p h) (drop_append host (47 ∷ p))

tls_of :
    (tls : Bool) (host p subproto : Text) (timeout : Duration)
    → (new_runner (target_of tls host p) subproto timeout).use_tls ≡ tls
unfolding new_runner has_prefix
tls_of true host p subproto timeout = refl
tls_of false host p subproto timeout = refl

target_kept : (s subproto : Text) (timeout : Duration) → (new_runner s subproto timeout).target ≡ s
unfolding new_runner
target_kept s subproto timeout = refl

address :
    (r : Runner) (tls : Bool) (host p : Text)
    → All IsPlain host
    → r.target ≡ target_of tls host p
    → r.use_tls ≡ tls
    → dial_address r ≡ host ++ port tls
unfolding dial_address
address r tls host p h e t =
    rw (e, t, bare_target tls host p h, cut_host host p h, contains-colon host h) (by_port tls host)
  where
    by_port :
        (tls : Bool) (host : Text)
        → host ++ codes ":" ++ (if tls then codes "443" else codes "80") ≡ host ++ port tls
    by_port true host = append_assoc host (codes ":") (codes "443")
    by_port false host = append_assoc host (codes ":") (codes "80")

host_of :
    (r : Runner) (tls : Bool) (host p : Text)
    → All IsPlain host
    → r.target ≡ target_of tls host p
    → handshake_host r ≡ host
unfolding handshake_host
host_of r tls host p h e = rw (e, behind tls host p, cut_host host p h) refl

path_of :
    (r : Runner) (tls : Bool) (host p : Text)
    → All IsPlain host
    → r.target ≡ target_of tls host p
    → handshake_path r ≡ 47 ∷ p
unfolding handshake_path
path_of r tls host p h e = rw (e, behind tls host p, cut_path host p h) refl

-- For a host that names no port and a path that begins with a slash: the address is the host with
-- the port of the scheme, the Host header is the host, and the request line asks for the path.
pub dial_address-new_runner :
    (tls : Bool) (host p subproto : Text) (timeout : Duration)
    → All IsPlain host
    → let r = new_runner (target_of tls host p) subproto timeout in
      (dial_address r ≡ host ++ port tls) × (handshake_host r ≡ host) × (handshake_path r ≡ 47 ∷ p)
dial_address-new_runner tls host p subproto timeout h = (
  address (new_runner (target_of tls host p) subproto timeout) tls host p h
      (target_kept (target_of tls host p) subproto timeout) (tls_of tls host p subproto timeout),
  host_of (new_runner (target_of tls host p) subproto timeout) tls host p h
      (target_kept (target_of tls host p) subproto timeout),
  path_of (new_runner (target_of tls host p) subproto timeout) tls host p h
      (target_kept (target_of tls host p) subproto timeout),
)
