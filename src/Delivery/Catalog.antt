-- ===== src/Delivery/Catalog.antt =====
-- boatstack/internal/softwaredelivery/catalog.
pub mod OriginKind
pub mod SelectionClass
pub mod EventClass
pub mod AuthorityClass
pub mod StateEffectKind
pub mod Capability
pub mod SemanticId
pub mod Work
pub mod Transition
pub mod Evaluation
pub mod Authority
pub mod ObjectiveContract
pub mod StateFacetPolicy
pub mod NativeStateHandler
pub mod StateEffectClosure
pub mod StateEffect
pub mod WorkContract
pub mod Validate
pub mod Registry
