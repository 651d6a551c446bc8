-- ===== src/Scheduling.antt =====
-- The scheduling service (services/scheduling): rotations, shifts and overrides.
pub mod Duration
pub mod Rotation
pub mod Overrides
pub mod Generate
pub mod Roster
pub mod Handlers
pub mod Tests
