-- ===== src/Examples/Commands.antt =====
-- Command lines of internal/cli, the command that repeats a run, and the runner of a configuration.
use perf_loadgen.Base.{
  ◌*◌, ◌≡◌, refl, ◌↔◌, true, false, List, [], ◌∷◌, Option, none, some, Text, codes, thousandths,
  second, ok, All, split, trim_space, to_upper, lookup,
}
use perf_loadgen.Config.{Config, validate, valid_http_method}
use perf_loadgen.Config.Validity.{IsValid}
use perf_loadgen.Cli.Parse.{Flags, FlagParser, parse}
use perf_loadgen.Cli.Lists.{parse_headers}
use perf_loadgen.Cli.Arguments.{parse-IsValid}
use perf_loadgen.Cli.Headers.{Succeeds, IsHeader, parse_headers_iff}
use perf_loadgen.Cli.Roundtrip.{IsField, IsFresh, render_headers, parse_headers-render_headers}
use perf_loadgen.Output.{Format}
use perf_loadgen.Protocol.Grpc
use perf_loadgen.Examples.Settings.{lenient, chat, laptop}

abbrev flags : Flags
flags = record {
  url = codes "http://localhost/v1";
  method = codes "POST";
  headers = [];
  body = codes "hi";
  body_file = [];
  payload_dir = [];
  protocol = [];
  proto_service = [];
  proto_method = [];
  grpc_tls = false;
  grpc_token_field = [];
  ws_subprotocol = [];
  model_price = 0;
  stream = false;
  stream_format = [];
  stream_done_marker = [];
  stream_text_keys = [];
  stream_token_keys = [];
  concurrency = 4;
  duration = 0;
  requests = 100;
  timeout = second * 30;
  output = [];
  agent_context = [];
  qps = 0;
  ramp_up = 0;
  metrics_port = 0;
}

-- Whatever the arguments are, these are the flags.
abbrev always : FlagParser
always = λ args. some (flags, λ name. true)

parse-eq-ok : parse laptop thousandths lenient always (codes "--body" ∷ codes "hi" ∷ []) ≡ ok chat
unfolding parse validate valid_http_method to_upper
parse-eq-ok = refl

parse-IsValid_example : IsValid thousandths lenient chat
parse-IsValid_example =
    parse-IsValid laptop thousandths lenient always (codes "--body" ∷ codes "hi" ∷ []) chat
      parse-eq-ok

parse_headers_iff_example :
    Succeeds (parse_headers (codes "A: b, c")) ↔ All IsHeader (split 44 (codes "A: b, c"))
parse_headers_iff_example = parse_headers_iff (codes "A: b, c")

abbrev two_headers : List (Text × Text)
two_headers = (codes "A", codes "b:c") ∷ (codes "D", codes "e'f") ∷ []

two_headers-IsField : All IsField two_headers
unfolding trim_space
two_headers-IsField = (
  (refl, refl, (refl, tt), (refl, tt), refl, (refl, (refl, (refl, tt)))),
  ((refl, refl, (refl, tt), (refl, tt), refl, (refl, (refl, (refl, tt)))), tt),
)

two_headers-IsFresh : IsFresh [] two_headers
unfolding lookup
two_headers-IsFresh = (refl, (refl, tt))

parse_headers-render_headers_example : parse_headers (render_headers two_headers) ≡ ok two_headers
parse_headers-render_headers_example =
    parse_headers-render_headers two_headers two_headers-IsField two_headers-IsFresh

-- Every number prints as 1.
abbrev ones : Format
ones = record {
  int = λ n. codes "1";
  fixed = λ n x. codes "1";
  duration = λ d. codes "1s";
  slice = λ n text. text;
}

abbrev quoted_chat : Config
quoted_chat = record chat { headers = two_headers; body = codes "it's" }

abbrev answering : Grpc.Options → Option Text
answering opts = none
