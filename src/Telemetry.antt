-- ===== src/Telemetry.antt =====
-- The telemetry of a server (libs/myko/telemetry).
pub mod WebsocketMetrics
