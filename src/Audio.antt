-- ===== src/Audio.antt =====
-- internal/audio: what a call plays, how it is composed for ffmpeg, and the length of the result.
pub mod Ogg
pub mod Spec
pub mod Compose
pub mod Stream
pub mod Tests
