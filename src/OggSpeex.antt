-- ===== src/OggSpeex.antt =====
-- proxy/ogg-speex.js: raw Speex packets into Ogg pages for ffmpeg, and Ogg packets out of ffmpeg's
-- output. A byte is a natural number.
pub mod Write
pub mod Read
pub mod Pages
pub mod RoundTrip
pub mod Speech
mod Tests
