-- ===== src/Fsq.antt =====
-- internal/fsq: the Maildir queue under one delivery root.
pub mod Errors
pub mod Store
pub mod Monad
pub mod Syscall
pub mod Names
pub mod Root
pub mod Delivery
pub mod Claim
pub mod Dlq
pub mod Tests
