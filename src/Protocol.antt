-- ===== src/Protocol.antt =====
-- pkg/protocol/protocol.go: the wire format. A string is the list of its bytes, and an int64 is its
-- 64-bit pattern, which is what the conversions of the source write and read.
pub mod ProduceRequest
pub mod ProduceResponse
pub mod FetchRequest
pub mod FetchResponse
pub mod AckRequest
pub mod NackRequest
pub mod CreateTopicRequest
pub mod ErrorResponse
pub mod ListTopicsResponse
pub mod Frame
pub mod Messages
mod Tests
