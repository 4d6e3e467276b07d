-- ===== src/Protocol.antt =====
-- packages/protocol/src: messages, the packet format and the streaming codec.
pub mod Types
pub mod BufferQueue
pub mod Packet
pub mod Codec
pub mod JsonSerializer
pub mod ProtobufSerializer
pub mod Tests
