-- ===== src/PeerCache.antt =====
-- internal/peercache/peercache.go: the access hashes of Telegram peers in a bbolt database.
pub mod Codec
pub mod Bolt
pub mod Storage
pub mod Laws
pub mod Tests
