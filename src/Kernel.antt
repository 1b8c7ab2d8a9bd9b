-- ===== src/Kernel.antt =====
-- boatstack/kernel.
pub mod Types
pub mod Identifier
pub mod Error
pub mod Codec
pub mod Objective
pub mod State
pub mod Capability
pub mod Authority
pub mod Freshness
pub mod Trace
pub mod Relation
pub mod Program
pub mod Exec
pub mod Ports
pub mod Prescription
pub mod Receipt
pub mod Runtime
pub mod Examples
pub mod Opened
mod Tests
