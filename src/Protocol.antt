-- ===== src/Protocol.antt =====
-- internal/protocol/control.go: the control frames that open a stream.
pub mod Frame
pub mod Stream
pub mod Encode
pub mod Decode
pub mod Layout
pub mod RoundTrip
pub mod Accepts
pub mod Delivery
pub mod Receive
mod Runs
