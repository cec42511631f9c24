-- ===== src/Lib.antt =====
-- perf-loadgen drives load against HTTP, gRPC and WebSocket services that answer with token streams,
-- on one machine or as a master with workers. A configuration (internal/config) is read from a file
-- and from flags; the engine runs a protocol's runner from many goroutines and hands every result to
-- the collector (internal/stats); in distributed mode (internal/distributed) a master splits a run
-- over workers, takes jobs from a queue, and merges the snapshots that the workers send back.
--
-- Files: Base and its children hold the shared names: lists over native numbers, 64-bit words,
-- strings as code points, counters and maps as association lists, results, times. Types follows
-- pkg/types/types.go. Stats.Histogram follows internal/stats/histogram.go, with children on
-- recording, merging and quantiles; Stats.Collector follows internal/stats/collector.go, with
-- children on its counts, its extremes, and on merging against adding. Config follows
-- internal/config/config.go, its children Tests, Readings and Validity (Validate: its tests, what
-- they say, and what passes), Overlay (Merge) and Files (LoadFile) the rest of internal/config.
-- Distributed has the messages of internal/distributed/types.go, Distributed.Queue the job queue of
-- queue.go, with children on its order, on sequences of calls and on the wakeup of the processor.
-- Distributed.Auth follows auth.go, Distributed.Worker follows worker.go, with children on its
-- capacity and on repeated ids. Distributed.Master follows master.go: shards, worker checks and
-- dispatch are its own definitions, Cancel is CancelWorkerJob, Gather is Run, Api the job API,
-- Stream the event stream of the dashboard. Engine follows internal/engine, with children on the
-- request counter, the payload rotation, the pacer and the ramp-up; Engine.Report collects the
-- results of RunDetailed and tells its observers, and Engine.Settled counts them.
-- Distributed.Worker.Answer runs the engine for a job, and Distributed.Master.Totals follows the
-- counts from there to the master. Protocol follows internal/protocol: Httputil the error categories
-- and header values of httputil, Http the runner of http, HttpStream that of httpstream (Json and
-- Payload are decoded chunks, Lines the loops over a body, Consume the rest), Frames,
-- Websocket.Handshake and Websocket.Session that of websocket, Grpc those of grpc, Registry the
-- registry and its factories; Timing holds the times of chunks that three runners keep, and Contract
-- what all runners have in common. Cli follows internal/cli: Lists the lists in one argument, Parse
-- and Master the parsers. Output.Retest follows the re-test command of internal/output/agent.go,
-- Output.Shell reads it as a POSIX shell does. Output.Exporter is the state of the metrics endpoint
-- of internal/output/prometheus.go, an observer of the engine. Examples applies the theorems to
-- concrete inputs.
--
-- Conventions: an int64 or a time.Duration is its bit pattern, a number below 2^64, with two's
-- complement tests and wrap-around written out. A float64 is its bit pattern, and the floating-point
-- operations are a parameter (Floats); theorems state what they need of them. A Go map is an
-- association list in order of insertion; iteration over a map is only modelled where its order does
-- not matter to what is stated, or where a theorem says so. A mutex makes each operation atomic: it
-- is a function on the state, and interleavings are sequences of steps. A job that is submitted has
-- an id that no job of the queue has: ids are time stamps in nanoseconds. The loop of NewHistogram
-- runs on fuel 93, the capacity that the source reserves; no theorem on histograms uses which bounds
-- it makes. Clocks, generated ids, the file system, JSON, URLs, hashes and the network are
-- arguments.
--
-- The body of a stream is a text in UTF-8 whose bytes are counted by its encoding, and the loop over
-- its lines runs on one turn for each character and one more, which is proved to be enough. The
-- fields of decoded objects stand in the order in which one iteration visits them. An error carries
-- the answers of errors.Is and errors.As that the code asks for.
--
-- Not modelled: dialling, reflection and messages of gRPC, TLS settings and deadlines, the texts of
-- the reports and the server of the metrics, the dashboard page and server set-up, which mostly call
-- libraries or format text; the mock server; the channel of results, the timers and the context that
-- ends a run of the engine; and everything of third-party packages and what of the standard library
-- is named as a parameter.
pub mod Base
pub mod Types
pub mod Stats
pub mod Config
pub mod Distributed
pub mod Engine
pub mod Protocol
pub mod Cli
pub mod Output
pub mod Examples
