-- ===== src/Tts/Spans.antt =====
-- The spans of command.go, openai.go and speaker.go in internal/tts.
pub mod Command
pub mod OpenAi
pub mod Speaker
pub mod Tests
