-- ===== src/Devdb.antt =====
-- Databases for stories (internal/devdb).
pub mod Ports
mod Tests
