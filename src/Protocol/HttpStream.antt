-- ===== src/Protocol/HttpStream.antt =====
-- internal/protocol/httpstream/runner.go: requests whose response is a stream of chunks: the options
-- of the runner, the format of a stream, and what one chunk says.
pub mod Payload
pub mod Lines
pub mod Consume
pub mod Progress
pub mod Errors
pub mod Reordering
pub mod Events
pub mod Roundtrip
use perf_loadgen.Base.{
  Bool, true, false, ◌||◌, List, [], ◌∷◌, ◌++◌, Option, none, some, Text, Int64, Floats, Duration,
  codes, text_beq, is_empty, trim_space, has_prefix, trim_prefix, contains, to_lower, join,
  if◌then◌else◌,
}
use perf_loadgen.Protocol.Json.{Json}
use perf_loadgen.Protocol.HttpStream.Payload.{
  normalize_keys, collect_preferred_text, collect_preferred_tokens, detect_done,
}

pub record Options : Type 0 where
  pub timeout : Duration
  pub stream_format : Text
  pub done_marker : Text
  pub text_keys : List Text
  pub token_keys : List Text

-- The HTTP client is an argument of `run`.
pub record Runner : Type 0 where
  pub client_timeout : Duration
  pub stream_format : Text
  pub done_marker : Text
  pub text_keys : List Text
  pub token_keys : List Text

abbrev pub or_keys : List Text → List Text → List Text
or_keys [] default_keys = default_keys
or_keys (k ∷ ks) default_keys = k ∷ ks

abbrev default_text_keys : List Text
default_text_keys =
    codes "content" ∷ codes "text" ∷ codes "token" ∷ codes "output_text" ∷ codes "delta" ∷ []

abbrev default_token_keys : List Text
default_token_keys =
    codes "output_tokens" ∷ codes "completion_tokens" ∷ codes "generated_tokens" ∷ []

unfoldable pub new_runner : Options → Runner
new_runner opts = record {
  client_timeout = opts.timeout;
  stream_format = if is_empty opts.stream_format then codes "auto" else opts.stream_format;
  done_marker = if is_empty opts.done_marker then codes "[DONE]" else opts.done_marker;
  text_keys = or_keys opts.text_keys default_text_keys;
  token_keys = or_keys opts.token_keys default_token_keys;
}

pub data Format : Type 0 where
  sse jsonl raw : Format

-- `none`: the runner's own format is not one of the three, and the content type decides.
abbrev pub named_format : Text → Option Format
named_format name =
    if text_beq name (codes "sse")
    then some sse
    else if text_beq name (codes "jsonl")
    then some jsonl
    else if text_beq name (codes "raw")
    then some raw
    else none

abbrev pub format_of_content : Text → Format
format_of_content content =
    if contains content (codes "text/event-stream")
    then sse
    else if contains content (codes "jsonl")
        || contains content (codes "x-ndjson")
        || contains content (codes "ndjson")
    then jsonl
    else raw

unfoldable pub detect_format : Runner → Text → Format
unfolding contains to_lower
detect_format r content_type = elim (named_format r.stream_format) [
  | some format ↦ format
  | none ↦ format_of_content (to_lower content_type)
]

pub record ParsedChunk : Type 0 where
  pub text : Text
  pub tokens : Int64
  pub done : Bool

abbrev pub no_chunk : ParsedChunk
no_chunk = record { text = []; tokens = 0; done = false }

abbrev pub done_chunk : ParsedChunk
done_chunk = record { text = []; tokens = 0; done = true }

abbrev pub text_chunk : Text → ParsedChunk
text_chunk s = record { text = s; tokens = 0; done = false }

-- json.Unmarshal, and the orders in which the three passes over the payload visit its maps.
pub record Decoder : Type 0 where
  pub unmarshal : Text → Option Json
  pub for_text : Json → Json
  pub for_tokens : Json → Json
  pub for_done : Json → Json

-- The data of an event, joined; `none` where one of them is the marker.
abbrev pub or_done : Text → Option Text → Option Text
or_done value none = none
or_done value (some rest) = some (value ++ rest)

unfoldable pub event_data : Text → List Text → Option Text
unfolding has_prefix trim_prefix trim_space
event_data marker [] = some []
event_data marker (line ∷ lines) =
    let value = trim_space (trim_prefix line (codes "data:")) in
    let rest = event_data marker lines in
    if has_prefix line (codes "data:")
    then (if text_beq value marker then none else or_done value rest)
    else rest

module _ (f : Floats) (decoder : Decoder) (r : Runner) where
  open decoder use {unmarshal, for_text, for_tokens, for_done}

  abbrev pub decoded_chunk : Json → ParsedChunk
  decoded_chunk payload = record {
    text =
        join (codes " ") (collect_preferred_text (normalize_keys r.text_keys) (for_text payload));
    tokens = collect_preferred_tokens f (normalize_keys r.token_keys) (for_tokens payload);
    done = detect_done r.done_marker (for_done payload);
  }

  unfoldable pub extract_chunk : Text → ParsedChunk
  unfolding normalize_keys collect_preferred_text collect_preferred_tokens detect_done join
      trim_space
  extract_chunk raw_text =
      if text_beq raw_text r.done_marker then done_chunk else elim (unmarshal raw_text) [
        | some payload ↦ decoded_chunk payload
        | none ↦
            let trimmed = trim_space raw_text in
            if is_empty trimmed then no_chunk else text_chunk trimmed
      ]

  unfoldable pub extract_sse_chunk : List Text → ParsedChunk
  unfolding event_data extract_chunk
  extract_sse_chunk lines = elim (event_data r.done_marker lines) [
    | none ↦ done_chunk
    | some joined ↦ if is_empty joined then no_chunk else extract_chunk joined
  ]
