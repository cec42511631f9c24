-- ===== src/Config/Files.antt =====
-- internal/config/loader.go: configuration files, and the payload files of a directory. The file
-- system and the parsers of package time and encoding/json are parameters.
mod Listing
unfoldable pub use Listing.*
use perf_loadgen.Base.{
  ℕ, ◌≡◌, ◌≢◌, refl, Bool, true, false, not, ◌&&◌, List, [], ◌∷◌, map, Option, none, some, arith,
  nat_beq, if◌then◌else◌, length, Text, is_empty, trim_space, Int64, two64, ◌%◌, ◌*◌, Float64,
  Duration, second, Result, ok, err, ◌>>=◌, both_succeed, Floats,
}
use mathlib.Core.Path.{subst}
use perf_loadgen.Config.{Config, ConfigError, Urls, validate, empty_config}
use perf_loadgen.Config.Validity.{IsValid, validate_iff}

pub record FileConfig : Type 0 where
  pub url : Text
  pub method : Text
  pub headers : List (Text × Text)
  pub body : Text
  pub body_file : Text
  pub payload_dir : Text
  pub protocol : Text
  pub grpc_service : Text
  pub grpc_method : Text
  pub grpc_tls : Bool
  pub grpc_token_field : Text
  pub ws_subprotocol : Text
  pub model_price_per_1k : Float64
  pub streaming : Bool
  pub stream_format : Text
  pub stream_done_marker : Text
  pub stream_text_keys : List Text
  pub stream_token_keys : List Text
  pub concurrency : Int64
  pub duration : Text
  pub requests : Int64
  pub timeout : Text
  pub output : Text
  pub agent_context : Text
  pub qps : Float64
  pub ramp_up : Text
  pub metrics_port : Int64

-- What the loader calls outside the program.
pub record Host : Type 0 where
  pub read_file : Text → Option Text
  pub read_dir : Text → Option (List (Text × Bool))
  pub join_path : Text → Text → Text
  pub parse_duration : Text → Option Duration
  pub parse_json : Text → Option FileConfig

pub data LoadError : Type 0 where
  invalid_duration invalid_timeout invalid_ramp_up : LoadError
  unreadable_body unreadable_dir unreadable_config bad_json : LoadError
  invalid_config : ConfigError → LoadError

-- An empty text is 0, and so is one that does not parse, which is an error otherwise.
abbrev duration_or : Option Duration → Text → LoadError → Result LoadError Duration
duration_or (some d) text e = ok d
duration_or none text e = if is_empty text then ok 0 else err e

abbrev or_fail : {A : Type 0} → Option A → LoadError → Result LoadError A
or_fail none e = err e
or_fail (some a) e = ok a

module _ (host : Host) where
  unfoldable pub list_payload_dir : Text → Option (List Text)
  unfolding sorted_files
  list_payload_dir dir = elim (host.read_dir (trim_space dir)) [
    | none ↦ none
    | some entries ↦ some (map (host.join_path dir) (sorted_files entries))
  ]

  unfoldable pub load_body : FileConfig → Result LoadError Text
  load_body fc =
      if not (is_empty fc.body_file) && is_empty fc.body
      then or_fail (host.read_file fc.body_file) unreadable_body
      else ok fc.body

  unfoldable pub load_payloads : FileConfig → Result LoadError (List Text)
  unfolding list_payload_dir
  load_payloads fc =
      if is_empty fc.payload_dir
      then ok []
      else or_fail (list_payload_dir fc.payload_dir) unreadable_dir

  -- The body text is the text that was read, also where it came from the file.
  abbrev assemble : FileConfig → Duration → Duration → Duration → Text → List Text → Config
  assemble fc duration timeout ramp_up body files = record {
    url = fc.url;
    method = fc.method;
    headers = fc.headers;
    body = body;
    body_text = body;
    body_file = fc.body_file;
    payload_dir = fc.payload_dir;
    payload_count = length files % two64;
    payload_files = files;
    protocol = fc.protocol;
    grpc_service = fc.grpc_service;
    grpc_method = fc.grpc_method;
    grpc_tls = fc.grpc_tls;
    grpc_token_field = fc.grpc_token_field;
    ws_subprotocol = fc.ws_subprotocol;
    model_price_per_1k = fc.model_price_per_1k;
    streaming = fc.streaming;
    stream_format = fc.stream_format;
    stream_done_marker = fc.stream_done_marker;
    stream_text_keys = fc.stream_text_keys;
    stream_token_keys = fc.stream_token_keys;
    concurrency = fc.concurrency;
    duration = duration;
    requests = fc.requests;
    timeout = if nat_beq timeout 0 then second * 30 else timeout;
    output = fc.output;
    agent_context = fc.agent_context;
    qps = fc.qps;
    ramp_up = ramp_up;
    metrics_port = fc.metrics_port;
    payloads = [];
  }

  -- `toConfig`.
  unfoldable pub to_config : FileConfig → Result LoadError Config
  unfolding load_body load_payloads
  to_config fc = do
    duration ← duration_or (host.parse_duration fc.duration) fc.duration invalid_duration
    timeout ← duration_or (host.parse_duration fc.timeout) fc.timeout invalid_timeout
    ramp_up ← duration_or (host.parse_duration fc.ramp_up) fc.ramp_up invalid_ramp_up
    body ← load_body fc
    files ← load_payloads fc
    ok (assemble fc duration timeout ramp_up body files)

  abbrev or_invalid : Config → Option ConfigError → Result LoadError Config
  or_invalid c none = ok c
  or_invalid c (some e) = err (invalid_config e)

  module _ (f : Floats) (u : Urls) where
    -- `LoadFile`.
    unfoldable pub load_file : Text → Result LoadError Config
    unfolding to_config
    load_file path = do
      text ← or_fail (host.read_file path) unreadable_config
      fc ← or_fail (host.parse_json text) bad_json
      c ← to_config fc
      or_invalid c (validate f u c)

    or_invalid-eq-ok :
        (c d : Config) → or_invalid c (validate f u c) ≡ ok d → (c ≡ d) × (validate f u c ≡ none)
    or_invalid-eq-ok c d h = ground arith

    -- A configuration that a file yields can start a run: it passes every test of `Validate`.
    pub load_file-IsValid : (path : Text) (c : Config) → load_file path ≡ ok c → IsValid f u c
    unfolding load_file
    load_file-IsValid path c h =
        let (text, h1, _) = both_succeed (or_fail (host.read_file path) unreadable_config) _ h in
        let (fc, h2, _) = both_succeed (or_fail (host.parse_json text) bad_json) _ h1 in
        let (d, h3, _) = both_succeed (to_config fc) _ h2 in
        let (same, passed) = or_invalid-eq-ok d c h3 in
        (validate_iff f u c).0 (subst (λ x. validate f u x ≡ none) same passed)
