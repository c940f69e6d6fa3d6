-- ===== src/Tgcall.antt =====
-- internal/tgcall: the Telegram client. It resolves the peer, places calls and leaves messages.
pub mod Errors
pub mod Retry
pub mod Terminal
pub mod Logger
pub mod Sample
pub mod Call
pub mod Spans
pub mod Peer
pub mod Client
pub mod Message
pub mod Metrics
