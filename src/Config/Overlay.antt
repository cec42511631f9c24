-- ===== src/Config/Overlay.antt =====
-- internal/config/loader.go, Merge: flags given on the command line over a configuration file.
use perf_loadgen.Base.{
  ◌≡◌, refl, ap, ◌∙◌, ◌⊎◌, Bool, true, false, ◌||◌, [], Option, none, some, arith, if◌then◌else◌,
  Text, codes,
}
use perf_loadgen.Config.{Config}

-- A nil map means that every value counts as given.
abbrev pub Explicit : Type 0
Explicit = Option (Text → Bool)

abbrev pub applies : Explicit → Text → Bool
applies none name = true
applies (some given) name = given name

-- The request body: a body given in one form drops the other forms.
unfoldable pub merge_body : Explicit → Config → Config → Config
merge_body e base overlay =
    let inline = applies e (codes "body") || applies e (codes "body-file") in
    record base {
      body = if inline then overlay.body else base.body;
      body_text = if inline then overlay.body_text else base.body_text;
      payload_dir = if inline then [] else base.payload_dir;
      payload_files = if inline then [] else base.payload_files;
      payload_count = if inline then 0 else base.payload_count;
      body_file =
          if applies e (codes "body-file")
          then overlay.body_file
          else if applies e (codes "body")
          then []
          else base.body_file;
    }

unfoldable pub merge_payload_dir : Explicit → Config → Config → Config
merge_payload_dir e base overlay =
    let given = applies e (codes "payload-dir") in
    record base {
      body = if given then [] else base.body;
      body_text = if given then [] else base.body_text;
      body_file = if given then [] else base.body_file;
      payload_dir = if given then overlay.payload_dir else base.payload_dir;
      payload_files = if given then overlay.payload_files else base.payload_files;
      payload_count = if given then overlay.payload_count else base.payload_count;
    }

abbrev pub pick : {A : Type 0} → Explicit → Text → A → A → A
pick e name base overlay = if applies e name then overlay else base

unfoldable pub merge_rest : Explicit → Config → Config → Config
merge_rest e base o = record base {
  url = pick e (codes "url") base.url o.url;
  method = pick e (codes "method") base.method o.method;
  headers = pick e (codes "headers") base.headers o.headers;
  protocol = pick e (codes "protocol") base.protocol o.protocol;
  grpc_service = pick e (codes "proto-service") base.grpc_service o.grpc_service;
  grpc_method = pick e (codes "proto-method") base.grpc_method o.grpc_method;
  grpc_tls = pick e (codes "grpc-tls") base.grpc_tls o.grpc_tls;
  grpc_token_field = pick e (codes "grpc-token-field") base.grpc_token_field o.grpc_token_field;
  ws_subprotocol = pick e (codes "ws-subprotocol") base.ws_subprotocol o.ws_subprotocol;
  model_price_per_1k = pick e (codes "model-price") base.model_price_per_1k o.model_price_per_1k;
  streaming = pick e (codes "stream") base.streaming o.streaming;
  stream_format = pick e (codes "stream-format") base.stream_format o.stream_format;
  stream_done_marker =
      pick e (codes "stream-done-marker") base.stream_done_marker o.stream_done_marker;
  stream_text_keys = pick e (codes "stream-text-keys") base.stream_text_keys o.stream_text_keys;
  stream_token_keys = pick e (codes "stream-token-keys") base.stream_token_keys o.stream_token_keys;
  concurrency = pick e (codes "concurrency") base.concurrency o.concurrency;
  duration = pick e (codes "duration") base.duration o.duration;
  requests = pick e (codes "requests") base.requests o.requests;
  timeout = pick e (codes "timeout") base.timeout o.timeout;
  output = pick e (codes "output") base.output o.output;
  agent_context = pick e (codes "agent-context") base.agent_context o.agent_context;
  qps = pick e (codes "qps") base.qps o.qps;
  ramp_up = pick e (codes "ramp-up") base.ramp_up o.ramp_up;
  metrics_port = pick e (codes "metrics-port") base.metrics_port o.metrics_port;
}

-- `Merge(base, overlay, explicit)`.
unfoldable pub merge : Explicit → Config → Config → Config
unfolding merge_body merge_payload_dir merge_rest
merge e base overlay =
    merge_rest e (merge_payload_dir e (merge_body e base overlay) overlay) overlay

-- Where the bodies of requests come from: at most one of an inline text, a file and a directory. A
-- body that was read from the file stands in `body`, and its name in `body_file`.
pub record OneSource (c : Config) : Type 0 where
  pub text_or_file : (c.body_text ≡ []) ⊎ (c.body_file ≡ [])
  pub text_or_dir : (c.body_text ≡ []) ⊎ (c.payload_dir ≡ [])
  pub file_or_dir : (c.body_file ≡ []) ⊎ (c.payload_dir ≡ [])
  pub body_or_dir : (c.body ≡ []) ⊎ (c.payload_dir ≡ [])
  pub files_of_dir : c.payload_dir ≡ [] → c.payload_files ≡ []

abbrev pub nothing_given : Explicit
nothing_given = some (λ name. false)

-- With no flag given the file's configuration stays as it is.
pub merge_nothing : (base overlay : Config) → merge nothing_given base overlay ≡ base
unfolding merge
merge_nothing base overlay = refl

if_again :
    {A : Type 0} (b : Bool) (x y : A)
    → (if b then x else (if b then x else y)) ≡ (if b then x else y)
if_again true x y = refl
if_again false x y = refl

body_again :
    (e : Explicit) (base overlay : Config)
    → merge_payload_dir e
        (merge_body e (merge_payload_dir e (merge_body e base overlay) overlay) overlay)
        overlay
      ≡ merge_payload_dir e (merge_body e base overlay) overlay
unfolding merge_payload_dir merge_body
body_again none base overlay = refl
body_again (some g) base overlay = ground arith

rest_again :
    (e : Explicit) (base overlay : Config)
    → merge_rest e (merge_rest e base overlay) overlay ≡ merge_rest e base overlay
unfolding merge_rest
rest_again none base overlay = refl
rest_again (some g) base overlay = simp if_again

-- The two parts of the merge touch different fields.
body_rest_swap :
    (e : Explicit) (base overlay : Config)
    → merge_payload_dir e (merge_body e (merge_rest e base overlay) overlay) overlay
      ≡ merge_rest e (merge_payload_dir e (merge_body e base overlay) overlay) overlay
unfolding merge_payload_dir merge_body merge_rest
body_rest_swap e base overlay = refl

-- Merging twice with the same flags changes nothing more.
pub merge_idem :
    (e : Explicit) (base overlay : Config)
    → merge e (merge e base overlay) overlay ≡ merge e base overlay
unfolding merge
merge_idem e base overlay =
    let once = merge_payload_dir e (merge_body e base overlay) overlay in
    ap (λ c. merge_rest e c overlay) (body_rest_swap e once overlay)
    ∙ rest_again e _ overlay
    ∙ ap (λ c. merge_rest e c overlay) (body_again e base overlay)
