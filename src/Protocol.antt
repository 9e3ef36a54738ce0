-- ===== src/Protocol.antt =====
-- packages/protocol/index.js: the allowlist that every hop applies to a Remote message.
pub mod Version
pub mod Types
pub mod Checks
pub mod Shape
pub mod Snapshot
pub mod Weather
pub mod Payload
pub mod Message
pub mod Bounds
mod Tests
