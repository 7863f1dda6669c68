-- ===== src/Swarm.antt =====
-- internal/swarm: the shared task list of a team, and the bridge that reports its changes.
pub mod Json
pub mod Tasks
pub mod Update
pub mod Team
pub mod Poll
pub mod Lifecycle
pub mod Events
pub mod Frame
pub mod Gate
pub mod Tests
