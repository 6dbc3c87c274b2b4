-- ===== src/Runtime.antt =====
-- packages/runtime: the operations over an opened brain, and the session that they share.
pub mod Session
pub mod Tasks
mod Tests
mod TaskTests
