-- ===== src/Client.antt =====
-- libs/myko/core/src/client: the client's subscriptions and its entity synchroniser.
pub mod MapSequence
pub mod EntitySync
pub mod QueryMap
