-- ===== src/Escalation.antt =====
-- The escalation service (services/escalation): policies, escalation states and their timeouts.
pub mod Types
pub mod Policies
pub mod States
pub mod Escalator
pub mod Worker
pub mod Claim
pub mod Redelivery
pub mod Tests
pub mod Delivery
pub mod Handler
