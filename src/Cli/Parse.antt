-- ===== src/Cli/Parse.antt =====
-- internal/cli/parse.go: Parse, from the arguments to a configuration.
use perf_loadgen.Base.{
  ℕ, suc, ◌%◌, Bool, not, List, [], ◌∷◌, length, Option, none, some, Text, Int64, Float64, Floats,
  Duration, codes, text_beq, is_empty, trim_space, has_prefix, trim_prefix, to_lower, to_upper, leb,
  two64, if◌then◌else◌, Result, err, ok, ◌>>=◌,
}
use perf_loadgen.Config.{Config, ConfigError, Urls, validate, empty_config}
use perf_loadgen.Config.Overlay.{merge}
use perf_loadgen.Config.Files.{Host, LoadError, load_file, list_payload_dir}
use perf_loadgen.Cli.{
  CliError, config_path_missing, sources_exclusive, bad_flags, unreadable_payload_dir,
  unreadable_body_file, not_loaded, not_valid,
}
use perf_loadgen.Cli.Lists.{parse_csv_list, parse_headers}

-- The loop that takes --config out of the arguments: the path and the other arguments.
abbrev pub with_argument :
    Text → Result CliError (Text × List Text) → Result CliError (Text × List Text)
with_argument a (err e) = err e
with_argument a (ok (path, rest)) = ok (path, a ∷ rest)

unfoldable pub extract_config : Text → List Text → Result CliError (Text × List Text)
unfolding has_prefix trim_prefix
extract_config path [] = ok (path, [])
extract_config path (a ∷ []) =
    if has_prefix a (codes "--config=")
    then ok (trim_prefix a (codes "--config="), [])
    else if text_beq a (codes "--config")
    then err config_path_missing
    else ok (path, a ∷ [])
extract_config path (a ∷ v ∷ args) =
    let inline = extract_config (trim_prefix a (codes "--config=")) (v ∷ args) in
    let apart = extract_config v args in
    let kept = extract_config path (v ∷ args) in
    if has_prefix a (codes "--config=")
    then inline
    else if text_beq a (codes "--config")
    then apart
    else with_argument a kept

-- The values of the flags after fs.Parse.
pub record Flags : Type 0 where
  pub url : Text
  pub method : Text
  pub headers : Text
  pub body : Text
  pub body_file : Text
  pub payload_dir : Text
  pub protocol : Text
  pub proto_service : Text
  pub proto_method : Text
  pub grpc_tls : Bool
  pub grpc_token_field : Text
  pub ws_subprotocol : Text
  pub model_price : Float64
  pub stream : Bool
  pub stream_format : Text
  pub stream_done_marker : Text
  pub stream_text_keys : Text
  pub stream_token_keys : Text
  pub concurrency : Int64
  pub duration : Duration
  pub requests : Int64
  pub timeout : Duration
  pub output : Text
  pub agent_context : Text
  pub qps : Float64
  pub ramp_up : Duration
  pub metrics_port : Int64

-- fs.Parse on the flags that the code declares: their values, and which ones were given.
abbrev pub FlagParser : Type 0
FlagParser = List Text → Option (Flags × (Text → Bool))

abbrev pub or_error : {E A : Type 0} → E → Option A → Result E A
or_error e none = err e
or_error e (some a) = ok a

abbrev pub count_given : List Text → ℕ
count_given [] = 0
count_given (raw ∷ rest) =
    if is_empty (trim_space raw) then count_given rest else suc (count_given rest)

unfoldable pub check_sources : Flags → Result CliError Unit
unfolding trim_space
check_sources given =
    if leb (count_given (given.body ∷ given.body_file ∷ given.payload_dir ∷ [])) 1
    then ok tt
    else err sources_exclusive

-- The body, its text and the payload files.
abbrev pub Payload : Type 0
Payload = Text × Text × List Text

module _ (host : Host) where
  abbrev of_dir : Option (List Text) → Result CliError Payload
  of_dir none = err unreadable_payload_dir
  of_dir (some files) = ok ([], [], files)

  abbrev of_file : Option Text → Result CliError Payload
  of_file none = err unreadable_body_file
  of_file (some payload) = ok (payload, payload, [])

  unfoldable pub load_payload_source : Text → Text → Text → Result CliError Payload
  unfolding list_payload_dir trim_space
  load_payload_source body body_file payload_dir =
      if not (is_empty (trim_space payload_dir))
      then of_dir (list_payload_dir host payload_dir)
      else if not (is_empty (trim_space body_file))
      then of_file (host.read_file (trim_space body_file))
      else ok (body, body, [])

abbrev pub config_of : Flags → List (Text × Text) → Payload → Config
config_of given headers (body, body_text, files) = record {
  url = trim_space given.url;
  method = to_upper (trim_space given.method);
  headers = headers;
  body = body;
  body_text = body_text;
  body_file = trim_space given.body_file;
  payload_dir = trim_space given.payload_dir;
  payload_count = length files % two64;
  payload_files = files;
  protocol = to_lower (trim_space given.protocol);
  grpc_service = trim_space given.proto_service;
  grpc_method = trim_space given.proto_method;
  grpc_tls = given.grpc_tls;
  grpc_token_field = trim_space given.grpc_token_field;
  ws_subprotocol = trim_space given.ws_subprotocol;
  model_price_per_1k = given.model_price;
  streaming = given.stream;
  stream_format = to_lower (trim_space given.stream_format);
  stream_done_marker = trim_space given.stream_done_marker;
  stream_text_keys = parse_csv_list given.stream_text_keys;
  stream_token_keys = parse_csv_list given.stream_token_keys;
  concurrency = given.concurrency;
  duration = given.duration;
  requests = given.requests;
  timeout = given.timeout;
  output = trim_space given.output;
  agent_context = trim_space given.agent_context;
  qps = given.qps;
  ramp_up = given.ramp_up;
  metrics_port = given.metrics_port;
  payloads = [];
}

module _ (host : Host) (f : Floats) (u : Urls) (flags : FlagParser) where
  abbrev loaded : Result LoadError Config → Result CliError Config
  loaded (err e) = err (not_loaded e)
  loaded (ok c) = ok c

  abbrev pub load_base : Text → Result CliError Config
  load_base path = if is_empty path then ok empty_config else loaded (load_file host f u path)

  abbrev pub over_base : Text → Config → (Text → Bool) → Config → Config
  over_base path base explicit c = if is_empty path then c else merge (some explicit) base c

  abbrev pub checked : Config → Option ConfigError → Result CliError Config
  checked c none = ok c
  checked c (some e) = err (not_valid e)

  unfoldable pub parse : List Text → Result CliError Config
  unfolding extract_config load_file check_sources parse_headers load_payload_source parse_csv_list
      merge validate
  parse args = do
    extracted ← extract_config [] args
    base ← load_base extracted.0
    given ← or_error bad_flags (flags extracted.1)
    _ ← check_sources given.0
    headers ← parse_headers given.0.headers
    payload ← load_payload_source host given.0.body given.0.body_file given.0.payload_dir
    let c = over_base extracted.0 base given.1 (config_of given.0 headers payload)
    checked c (validate f u c)
