-- ===== src/Cache.antt =====
-- core/cache
pub mod Tables
