-- ===== src/Protocol/Registry.antt =====
-- internal/protocol/registry and factory.go, with the register.go of each protocol: the runner of a
-- configuration. Dialling a gRPC server and resolving its method is a parameter.
pub mod Selection
use perf_loadgen.Base.{
  Bool, true, false, ◌||◌, List, [], ◌∷◌, ◌++◌, Option, none, some, Text, Duration, codes, is_empty,
  lookup, put, text_eq, if◌then◌else◌, Result, err, ok,
}
use perf_loadgen.Config.{Config}
use perf_loadgen.Protocol.HttpStream
use perf_loadgen.Protocol.Websocket
use perf_loadgen.Protocol.Grpc

-- The runners, by what they are built from.
pub data Built : Type 0 where
  http_runner : Duration → Built
  stream_runner : HttpStream.Runner → Built
  unary_runner grpc_stream_runner : Grpc.Options → Built
  websocket_runner : Websocket.Runner → Built

abbrev pub Factory : Type 0
Factory = Config → Result Text Built

abbrev pub Factories : Type 0
Factories = List (Text × Factory)

unfoldable pub register : Text → Factory → Factories → Factories
unfolding put
register name factory factories = put name factory factories

abbrev pub name_of : Config → Text
name_of c = if is_empty c.protocol then codes "http" else c.protocol

unfoldable pub build : Factories → Config → Result Text Built
unfolding lookup
build factories c = elim (lookup (name_of c) factories) [
  | none ↦ err (codes "unknown protocol " ++ name_of c)
  | some factory ↦ factory c
]

-- internal/protocol/http/register.go.
abbrev pub http_factory : Factory
http_factory c =
    if c.streaming
    then ok (
        stream_runner (
          HttpStream.new_runner (record {
            timeout = c.timeout;
            stream_format = c.stream_format;
            done_marker = c.stream_done_marker;
            text_keys = c.stream_text_keys;
            token_keys = c.stream_token_keys;
          })))
    else ok (http_runner c.timeout)

-- internal/protocol/websocket/register.go.
abbrev pub websocket_factory : Factory
websocket_factory c = ok (websocket_runner (Websocket.new_runner c.url c.ws_subprotocol c.timeout))

-- internal/protocol/grpc/register.go.
abbrev pub unary_options : Config → Grpc.Options
unary_options c = record {
  target = c.url;
  timeout = c.timeout;
  tls = c.grpc_tls;
  service_name = c.grpc_service;
  method_name = c.grpc_method;
  token_field = [];
}

abbrev pub stream_options : Config → Grpc.Options
stream_options c = record (unary_options c) { token_field = c.grpc_token_field }

module _ (connect : Grpc.Options → Option Text) where
  abbrev pub connected : Built → Option Text → Result Text Built
  connected built none = ok built
  connected built (some problem) = err problem

  abbrev pub names_missing : Config → Bool
  names_missing c = is_empty c.grpc_service || is_empty c.grpc_method

  abbrev pub grpc_factory : Factory
  grpc_factory c =
      if names_missing c
      then err (codes "--proto-service and --proto-method are required for gRPC")
      else connected (unary_runner (unary_options c)) (connect (unary_options c))

  abbrev pub grpc_stream_factory : Factory
  grpc_stream_factory c =
      if names_missing c
      then err (codes "--proto-service and --proto-method are required for gRPC streaming")
      else connected (grpc_stream_runner (stream_options c)) (connect (stream_options c))

  -- After the `init` functions of the packages that factory.go imports, in that order.
  unfoldable pub factories : Factories
  unfolding register
  factories = register (codes "websocket") websocket_factory (
      register (codes "http") http_factory (
        register (codes "grpc-stream") grpc_stream_factory
          (register (codes "grpc") grpc_factory [])))

  -- `BuildRunner`.
  unfoldable pub build_runner : Config → Result Text Built
  unfolding build factories
  build_runner c = build factories c
