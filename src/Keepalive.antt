-- ===== src/Keepalive.antt =====
-- The keepalive daemon: its registry of the terminals that agents attached (internal/keepalive/registry)
-- and the supervisor's schedule (internal/keepalive/supervisor).
pub mod Registry
pub mod Supervisor
mod Tests
