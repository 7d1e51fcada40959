-- ===== src/Database.antt =====
-- internal/database: identifiers, dialects, sources and their registry.
pub mod Identifier
pub mod Dialect
pub mod Source
pub mod Registry
pub mod Opening
pub mod Metadata
mod Tests
