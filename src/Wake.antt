-- ===== src/Wake.antt =====
-- The waker of an agent: the doorbell it rings while messages wait (internal/cli/wake_doorbell.go, with
-- the calls of internal/cli/wake.go that record what a ring led to).
pub mod Backoff
pub mod Cohort
pub mod Doorbell
pub mod Notify
mod Tests
