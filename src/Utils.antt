-- ===== src/Utils.antt =====
-- The utilities: include/utils.
pub mod ThreadPool
mod Tests
