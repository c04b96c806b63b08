-- ===== src/Graph.antt =====
-- libs/myko/core/src/core/graph.rs: typed edges, their projections and bounded traversals.
pub mod EdgeIds
pub mod Types
pub mod Incidence
pub mod Index
pub mod Between
pub mod Preflight
pub mod Traversal
pub mod WatchRouter
pub mod Publish
pub mod DeletePlan
pub mod Rebuild
mod Tests
