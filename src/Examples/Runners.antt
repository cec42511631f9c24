-- ===== src/Examples/Runners.antt =====
-- Runners of internal/protocol on a stream of two events, a socket of three frames, and a target.
use perf_loadgen.Base.{
  ℕ, ◌+◌, ◌*◌, ◌-◌, ◌%◌, ◌≡◌, refl, arith, true, false, List, [], ◌∷◌, ◌++◌, map, Option, none,
  some, Text, Float64, Time, ok, err, codes, thousandths, two64, byte_count, trim_space, join,
  count_fields,
}
use perf_loadgen.Types.{RequestSpec}
use perf_loadgen.Protocol.Json.{Json, boolean, string, object, no_fields, field}
use perf_loadgen.Protocol.Httputil.{GoError, new_error, Outcome, header_get}
use perf_loadgen.Protocol.Httputil.Reported.{IsReported}
use perf_loadgen.Protocol.Timing.Gaps.{Spans, ticks, last_of}
use perf_loadgen.Protocol.Http
use perf_loadgen.Protocol.HttpStream.{Runner, Decoder, detect_format, sse, extract_chunk}
use perf_loadgen.Protocol.HttpStream.Payload.{detect_done, collect_preferred_text}
use perf_loadgen.Protocol.HttpStream.Lines.{no_scan}
use perf_loadgen.Protocol.HttpStream.Consume
use perf_loadgen.Protocol.HttpStream.Consume.{Response, consume_stream, summarize, format_of}
use perf_loadgen.Protocol.HttpStream.Progress.{consume_stream_total}
use perf_loadgen.Protocol.HttpStream.Events.{IsPayload, render_events, absorb_all}
use perf_loadgen.Protocol.HttpStream.Roundtrip.{IsOneLine, consume_stream-render_events}
use perf_loadgen.Protocol.HttpStream.Reordering.{in_object, swap, detect_done-Reordered}
use perf_loadgen.Protocol.Websocket
use perf_loadgen.Protocol.Websocket.Handshake.{Network, dial, refusal}
use perf_loadgen.Protocol.Websocket.Session
use perf_loadgen.Protocol.Websocket.Session.{Frame, Connection}
use perf_loadgen.Protocol.Websocket.Chunks.{run-samples}
use perf_loadgen.Protocol.Grpc
use perf_loadgen.Protocol.Grpc.Unary
use perf_loadgen.Protocol.Grpc.Stream
use perf_loadgen.Protocol.Contract.{run-IsReported}

abbrev no_float : Text → Option Float64
no_float text = none

-- A clock of these years that moves 5 ns from each reading to the next.
abbrev clock : ℕ → Time
clock n = 63_902_000_000_000_000_000 + n * 5

abbrev reader : Runner
reader = record {
  client_timeout = 0;
  stream_format = codes "auto";
  done_marker = codes "[DONE]";
  text_keys = codes "content" ∷ [];
  token_keys = [];
}

-- Every payload decodes to an object with its text under "content".
abbrev decoder : Decoder
decoder = record {
  unmarshal = λ text. some (object (field (codes "content") (string text) no_fields));
  for_text = λ v. v;
  for_tokens = λ v. v;
  for_done = λ v. v;
}

abbrev payloads : List Text
payloads = codes "hi there" ∷ codes "[DONE]" ∷ []

abbrev cut_off : Text
cut_off = codes "data: lost"

abbrev response : Response
response = record {
  status_code = 200;
  status = codes "200 OK";
  headers = (codes "Content-Type", codes "text/event-stream") ∷ [];
  body = render_events payloads ++ cut_off;
  body_error = none;
}

response-sse : format_of thousandths no_float decoder reader clock response ≡ sse
unfolding detect_format header_get
response-sse = refl

hi-IsPayload : IsPayload (codes "hi there")
unfolding trim_space
hi-IsPayload = ((refl, (refl, (refl, (refl, (refl, (refl, (refl, (refl, tt)))))))), refl, refl)

done-IsPayload : IsPayload (codes "[DONE]")
unfolding trim_space
done-IsPayload = ((refl, (refl, (refl, (refl, (refl, (refl, tt)))))), refl, refl)

cut_off-IsOneLine : IsOneLine cut_off
cut_off-IsOneLine =
    (refl, (refl, (refl, (refl, (refl, (refl, (refl, (refl, (refl, (refl, tt))))))))))

consume_stream-render_events_example :
    consume_stream thousandths no_float decoder reader clock response
    ≡ some (
      summarize thousandths no_float clock response
          (byte_count response.body % two64)
          (absorb_all clock no_scan (map (extract_chunk thousandths decoder reader) payloads)),
      none,
    )
consume_stream-render_events_example =
    consume_stream-render_events thousandths decoder reader clock no_float response payloads cut_off
      response-sse refl refl (hi-IsPayload, (done-IsPayload, tt)) cut_off-IsOneLine

consume_stream_total_example :
    (outcome : Outcome) × (consume_stream thousandths no_float decoder reader clock response
      ≡ some outcome)
    × (outcome.0.bytes_read ≡ byte_count response.body % two64)
consume_stream_total_example =
    consume_stream_total thousandths no_float decoder reader clock response

abbrev done_last : Json
done_last =
    object (
      field (codes "content") (string (codes "a b"))
        (field (codes "done") (boolean true) no_fields))

abbrev done_first : Json
done_first =
    object (
      field (codes "done") (boolean true)
        (field (codes "content") (string (codes "a b")) no_fields))

detect_done-Reordered_example :
    (detect_done (codes "[DONE]") done_last ≡ detect_done (codes "[DONE]") done_first)
    × (count_fields false
          (join (codes " ") (collect_preferred_text (codes "content" ∷ []) done_last))
        ≡ count_fields false
            (join (codes " ") (collect_preferred_text (codes "content" ∷ []) done_first)))
detect_done-Reordered_example =
    detect_done-Reordered (codes "[DONE]") (codes "content" ∷ []) done_last done_first (
      in_object
        (swap (codes "content") (codes "done") (string (codes "a b")) (boolean true) no_fields))

abbrev request : RequestSpec
request = record {
  url = codes "ws://localhost/chat";
  method = codes "GET";
  headers = [];
  body = codes "hello";
  timeout = 0;
}

-- A server that accepts the key.
abbrev network : Network
network = record {
  connect = λ tls address. none;
  random_key = ok (codes "key");
  write = λ text. none;
  read_response = ok (record {
    status_code = 101;
    status = codes "101 Switching Protocols";
    headers = (codes "Sec-WebSocket-Accept", codes "accepted") ∷ [];
  });
  sha1_base64 = λ text. codes "accepted";
}

abbrev text_frame : Text → Frame
text_frame text = record { opcode = 1; payload = text }

abbrev later_frames : List Frame
later_frames = text_frame (codes "b") ∷ text_frame (codes "c") ∷ []

abbrev socket : Connection
socket = record {
  send = λ text. none;
  pong = λ text. none;
  frames = text_frame (codes "a") ∷ later_frames;
  failure = new_error (codes "EOF");
  at_eof = true;
}

abbrev session : Websocket.Runner
session = Websocket.new_runner (codes "ws://localhost/chat") [] 0

dial-none : dial network session [] ≡ none
unfolding dial refusal
dial-none = refl

run-samples_example :
    Spans
      (Session.run thousandths clock network socket session request).0
      2
      (last_of (clock 1) (ticks clock 2 later_frames) - clock 0)
run-samples_example =
    run-samples thousandths clock network socket session request (text_frame (codes "a"))
      later_frames dial-none refl refl refl ((refl, refl), ((refl, refl), ((refl, refl), tt)))
      (omega arith) (omega arith) (omega arith, (omega arith, tt)) (omega arith)

abbrev refused : GoError
refused = record {
  message = codes "connection refused";
  deadline_exceeded = false;
  refused = true;
  net_timeout = none;
}

abbrev down : Http.Client
down = record { new_request = λ r. none; do_request = λ r headers. err refused }

abbrev streams : Consume.Client
streams = record { new_request = λ r. none; do_request = λ r headers. ok response }

-- Messages are their own JSON.
abbrev codec : Grpc.Codec Text
codec = record {
  new_message = [];
  from_json = λ body. ok body;
  marshal = λ message. some message;
  size = λ message. 1;
  unmarshal = λ text. none;
}

abbrev opts : Grpc.Options
opts = record {
  target = codes "localhost:50051";
  timeout = 0;
  tls = false;
  service_name = codes "S";
  method_name = codes "M";
  token_field = [];
}

abbrev unavailable : Grpc.CallError
unavailable = record { cause = refused; code = some 14 }

abbrev calls : Stream.Connection Text
calls = record {
  new_stream = λ method. none;
  send = λ message. none;
  close_send = none;
  received = codes "a" ∷ codes "b" ∷ [];
  failure = some unavailable;
}

run-IsReported_example :
    IsReported (Http.run thousandths no_float down 7 request)
    × ((outcome : Outcome) × (Consume.run thousandths no_float decoder reader clock streams request
          ≡ some outcome)
        × IsReported outcome)
    × IsReported (Session.run thousandths clock network socket session request)
    × IsReported (Unary.run codec opts (λ method message. err unavailable) 7 request)
    × IsReported (Stream.run thousandths codec clock calls opts request)
run-IsReported_example =
    run-IsReported thousandths no_float clock 7 request down streams decoder reader network socket
      session codec opts (λ method message. err unavailable) calls
