-- ===== src/Config.antt =====
-- internal/config: the configuration of the mode and the sources.
pub mod Utf8
pub mod Reference
pub mod Model
pub mod Load
mod Tests
