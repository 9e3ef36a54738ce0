-- ===== src/PilotCore.antt =====
-- The MessagePack messages of proxy/pilot-core.js, between the proxy and PilotCore: their encoder,
-- their decoder, and the reader of length-prefixed frames. A byte is a natural number. The UTF-8 codec
-- of Buffer, its floating-point readers and String(value) are parameters.
pub mod Encode
pub mod Decode
pub mod Frames
pub mod Fuel
pub mod RoundTrip
pub mod Stream
mod Tests
