-- ===== src/Examples/Settings.antt =====
-- Configurations of internal/config, with a file system of one file and one directory.
use perf_loadgen.Base.{
  ◌≡◌, refl, ◌↔◌, false, [], ◌∷◌, ◌++◌, none, some, codes, ◌==◌, text_eq, trim_space, to_upper,
  thousandths, ok, second, ◌*◌,
}
use perf_loadgen.Config.{Config, empty_config, Urls, validate, valid_http_method}
use perf_loadgen.Config.Validity.{IsValid, validate_iff}
use perf_loadgen.Config.Overlay.{Explicit}
use perf_loadgen.Config.Files.{FileConfig, Host, load_file}

-- Every text parses as a URL of one scheme and host.
abbrev pub lenient : Urls
lenient = record {
  parse = λ t. some (codes "http", codes "localhost");
  parse_request_uri = λ t. some (codes "http", codes "localhost");
}

abbrev pub chat : Config
chat = record empty_config {
  url = codes "http://localhost/v1";
  method = codes "POST";
  body = codes "hi";
  body_text = codes "hi";
  concurrency = 4;
  requests = 100;
  timeout = second * 30;
}

validate_iff_example : (validate thousandths lenient chat ≡ none) ↔ IsValid thousandths lenient chat
validate_iff_example = validate_iff thousandths lenient chat

abbrev only_body : Explicit
only_body = some (λ name. name == codes "body")

abbrev from_dir : Config
from_dir = record empty_config {
  payload_dir = codes "p";
  payload_files = codes "p/a" ∷ [];
  payload_count = 1;
}

abbrev chat_file : FileConfig
chat_file = record {
  url = codes "http://localhost/v1";
  method = codes "POST";
  headers = [];
  body = codes "hi";
  body_file = [];
  payload_dir = [];
  protocol = [];
  grpc_service = [];
  grpc_method = [];
  grpc_tls = false;
  grpc_token_field = [];
  ws_subprotocol = [];
  model_price_per_1k = 0;
  streaming = false;
  stream_format = [];
  stream_done_marker = [];
  stream_text_keys = [];
  stream_token_keys = [];
  concurrency = 4;
  duration = [];
  requests = 100;
  timeout = [];
  output = [];
  agent_context = [];
  qps = 0;
  ramp_up = [];
  metrics_port = 0;
}

abbrev pub laptop : Host
laptop = record {
  read_file = λ path. some path;
  read_dir = λ path. some [];
  join_path = λ a b. a ++ b;
  parse_duration = λ t. none;
  parse_json = λ t. some chat_file;
}

load_file-eq-ok : load_file laptop thousandths lenient (codes "chat.json") ≡ ok chat
unfolding load_file validate valid_http_method trim_space to_upper
load_file-eq-ok = refl
