-- ===== src/Config.antt =====
-- internal/config: the modes of config.go, the configuration record, and the credentials of secret.go.
pub mod Modes
pub mod Secrets
pub mod Load
pub mod Schema
pub mod Documents
pub mod Tests
