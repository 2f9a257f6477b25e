-- ===== src/Protocol.antt =====
-- include/protocol.h and common/protocol.c: the messages, their validation and their wire form.
pub mod Message
pub mod Frame
pub mod Validate
pub mod Fields
pub mod Codec
pub mod Tests
