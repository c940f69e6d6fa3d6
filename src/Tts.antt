-- ===== src/Tts.antt =====
-- internal/tts: the speech of a page.
pub mod Synthesizer
pub mod Command
pub mod OpenAi
pub mod Cache
pub mod Metrics
pub mod Speaker
pub mod Preflight
pub mod Build
pub mod Spans
