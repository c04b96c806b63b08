-- ===== src/Server.antt =====
-- The delivery of responses to one connection (libs/myko/server, libs/myko/core/src/server).
pub mod ViewDelivery
pub mod PersistHealth
pub mod Relationships
