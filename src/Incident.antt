-- ===== src/Incident.antt =====
-- The incident service (services/incident): incidents, their alerts and what becomes of them.
pub mod Types
pub mod StateMachine
pub mod Incidents
pub mod Records
pub mod Consumer
pub mod Handler
pub mod Transitions
pub mod Resolution
pub mod Closing
mod Tests
