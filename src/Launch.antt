-- ===== src/Launch.antt =====
-- The launch of an agent: the lease by which one process owns a session (internal/launch/lease.go).
pub mod Lease
mod Tests
