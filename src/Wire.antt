-- ===== src/Wire.antt =====
-- libs/myko/core/src/wire: the messages that the other parts read.
pub mod Window
pub mod QueryChanges
