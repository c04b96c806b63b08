-- ===== src/Query.antt =====
-- libs/myko/core/src/core/query: filters over the fields of an entity.
pub mod Filter
