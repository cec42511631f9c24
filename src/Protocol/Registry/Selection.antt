-- ===== src/Protocol/Registry/Selection.antt =====
-- internal/protocol/registry/registry.go: every configuration that can start a run has its runner.
use perf_loadgen.Base.{
  ◌≡◌, has_prefix, List, [], ◌∷◌, Option, Text, codes, text_eq, text_beq, if◌then◌else◌, ok,
}
use perf_loadgen.Config.{Config}
use perf_loadgen.Protocol.Grpc
use perf_loadgen.Protocol.HttpStream
use perf_loadgen.Protocol.Websocket
use perf_loadgen.Protocol.Registry.{
  Built, http_runner, stream_runner, unary_runner, grpc_stream_runner, websocket_runner,
  build_runner,
}

-- A setting, and what stands for one that is not given.
abbrev or_else : {A : Type 0} → List A → List A → List A
or_else [] otherwise = otherwise
or_else (x ∷ xs) otherwise = x ∷ xs

-- The runner that the protocol of a configuration names, with each of its settings.
abbrev pub stream_of : Config → HttpStream.Runner
stream_of c = record {
  client_timeout = c.timeout;
  stream_format = or_else c.stream_format (codes "auto");
  done_marker = or_else c.stream_done_marker (codes "[DONE]");
  text_keys =
      or_else c.stream_text_keys
        (codes "content" ∷ codes "text" ∷ codes "token" ∷ codes "output_text" ∷ codes "delta" ∷ []);
  token_keys =
      or_else c.stream_token_keys
        (codes "output_tokens" ∷ codes "completion_tokens" ∷ codes "generated_tokens" ∷ []);
}

abbrev pub session_of : Config → Websocket.Runner
session_of c = record {
  target = c.url;
  subproto = c.ws_subprotocol;
  conn_deadline = c.timeout;
  use_tls = has_prefix c.url (codes "wss://");
}

abbrev pub call_of : Config → Text → Grpc.Options
call_of c token_field = record {
  target = c.url;
  timeout = c.timeout;
  tls = c.grpc_tls;
  service_name = c.grpc_service;
  method_name = c.grpc_method;
  token_field = token_field;
}

abbrev pub runner_for : Config → Built
runner_for c =
    if text_beq c.protocol (codes "grpc")
    then unary_runner (call_of c [])
    else if text_beq c.protocol (codes "grpc-stream")
    then grpc_stream_runner (call_of c c.grpc_token_field)
    else if text_beq c.protocol (codes "websocket")
    then websocket_runner (session_of c)
    else if c.streaming
    then stream_runner (stream_of c)
    else http_runner c.timeout

module _ (connect : Grpc.Options → Option Text) where
  abbrev Selects : Config → Type 0
  Selects c = build_runner connect c ≡ ok (runner_for c)
