-- ===== src/Delivery/Model.antt =====
-- boatstack/internal/softwaredelivery/model.
pub mod FactStatus
pub mod Fact
pub mod FacetName
pub mod StateFacet
pub mod Topology
pub mod Phase
pub mod Engagement
pub mod DeliveryState
pub mod Workspace
pub mod Plan
pub mod WorkPackage
pub mod Configuration
pub mod RuntimeState
pub mod Publication
pub mod Verification
pub mod Recovery
pub mod TransactionState
pub mod Terminal
pub mod ProgramState
pub mod Objective
pub mod Invocation
pub mod Contexts
pub mod Observation
pub mod Canonicalize
pub mod Facet
pub mod Health
pub mod StateFacets
