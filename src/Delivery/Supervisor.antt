-- ===== src/Delivery/Supervisor.antt =====
-- boatstack/internal/softwaredelivery/supervisor.
pub mod IntentClass
pub mod DecisionKind
pub mod Guard
pub mod Classify
pub mod Policy
pub mod Resolve
