-- ===== src/Protocol/Contract.antt =====
-- internal/runner/runner.go: what the engine relies on of every runner of internal/protocol.
use perf_loadgen.Base.{ℕ, ◌≡◌, Option, some, Text, Float64, Floats, Time, Duration, Result}
use perf_loadgen.Types.{RequestSpec}
use perf_loadgen.Protocol.Httputil.{Outcome}
use perf_loadgen.Protocol.Httputil.Reported.{IsReported}
use perf_loadgen.Protocol.Http
use perf_loadgen.Protocol.Http.Errors as HttpErrors
use perf_loadgen.Protocol.HttpStream
use perf_loadgen.Protocol.HttpStream.Consume
use perf_loadgen.Protocol.HttpStream.Errors as StreamErrors
use perf_loadgen.Protocol.Websocket
use perf_loadgen.Protocol.Websocket.Handshake
use perf_loadgen.Protocol.Websocket.Session
use perf_loadgen.Protocol.Websocket.Errors as SocketErrors
use perf_loadgen.Protocol.Grpc
use perf_loadgen.Protocol.Grpc.Unary
use perf_loadgen.Protocol.Grpc.Stream
use perf_loadgen.Protocol.Grpc.Errors as GrpcErrors

module _ {Message : Type 0} (f : Floats) (parse_float : Text → Option Float64) (clock : ℕ → Time)
    (elapsed : Duration) (req : RequestSpec) where
  -- Every runner, whatever its client, server and clock do, returns a result and an error that
  -- agree: no error, success and the category none, or an error, no success, another category and
  -- the error's message. The HTTP stream runner returns for every body.
  pub run-IsReported :
      (client : Http.Client) (streams : Consume.Client) (decoder : HttpStream.Decoder)
      (reader : HttpStream.Runner) (net : Handshake.Network) (socket : Session.Connection)
      (session : Websocket.Runner) (codec : Grpc.Codec Message) (opts : Grpc.Options)
      (invoke : Text → Message → Result Grpc.CallError Message) (calls : Stream.Connection Message)
      → IsReported (Http.run f parse_float client elapsed req)
        × ((outcome : Outcome) × (Consume.run f parse_float decoder reader clock streams req
              ≡ some outcome)
            × IsReported outcome)
        × IsReported (Session.run f clock net socket session req)
        × IsReported (Unary.run codec opts invoke elapsed req)
        × IsReported (Stream.run f codec clock calls opts req)
  run-IsReported client streams decoder reader net socket session codec opts invoke calls =
      let (unary, stream) = GrpcErrors.run-IsReported f codec clock calls opts req invoke elapsed in
      (
        HttpErrors.run-IsReported f parse_float client elapsed req,
        StreamErrors.run_total f parse_float decoder reader clock streams req,
        (SocketErrors.run-IsReported f clock net socket session req).0,
        unary,
        stream,
      )
