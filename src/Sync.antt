-- ===== src/Sync.antt =====
-- src/sync: the channel between fibers.
pub mod Channel
mod Tests
