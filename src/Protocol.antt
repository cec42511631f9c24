-- ===== src/Protocol.antt =====
-- internal/protocol: the runners of the protocols.
pub mod Frames
pub mod Httputil
pub mod Http
pub mod Json
pub mod Timing
pub mod HttpStream
pub mod Websocket
pub mod Grpc
pub mod Registry
pub mod Contract
