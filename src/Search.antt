-- ===== src/Search.antt =====
-- The in-memory text search index (libs/myko/core/src/search).
pub mod Interner
