-- ===== src/Delivery/Catalog/Transition.antt =====
-- The transition and its predicates, boatstack/internal/softwaredelivery/catalog/transition.go.
-- The clones of a transition are equal to it, and are not modelled.
use boatstack.Base.{String, Bool, Option, List}
use boatstack.Base.Int.{ℤ}
use boatstack.Kernel.Types.{ObjectiveScope}
use boatstack.Delivery.Model.FactStatus.{FactStatus}
use boatstack.Delivery.Model.FacetName.{FacetName}
use boatstack.Delivery.Model.Phase.{ProtocolPhase}
use boatstack.Delivery.Model.StateFacet.{StateFacet}
use boatstack.Delivery.Model.Objective.{TargetId}
use boatstack.Delivery.Catalog.OriginKind.{OriginKind}
use boatstack.Delivery.Catalog.SelectionClass.{SelectionClass}
use boatstack.Delivery.Catalog.EventClass.{EventClass}
use boatstack.Delivery.Catalog.AuthorityClass.{AuthorityClass}
use boatstack.Delivery.Catalog.Capability.{Capability}
use boatstack.Delivery.Catalog.StateEffectKind.{StateEffectKind}
use boatstack.Delivery.Catalog.Work.{WorkContract}

abbrev pub TransitionId : Type 0
TransitionId = String

abbrev pub EffectId : Type 0
EffectId = String

pub record TransitionOrigin : Type 0 where
  pub kind : OriginKind
  pub id : String
  pub version : String
  pub manifest_fingerprint : String

pub record Prescription : Type 0 where
  pub operation : String
  pub arguments : List String
  pub authority_prompt : String
  pub expected_postcondition : String

pub record ParameterSpec : Type 0 where
  pub name : String
  pub required : Bool
  pub secret : Bool

pub record StateValueReference : Type 0 where
  pub parameter : String
  pub admission : String
  pub invocation : String

-- The value is a pointer.
pub record StateAssignment : Type 0 where
  pub facet : String
  pub value : Option String
  pub value_from : StateValueReference

pub record StatePrecondition : Type 0 where
  pub facet : String
  pub values : List String

pub record StateEffect : Type 0 where
  pub kind : StateEffectKind
  pub preconditions : List StatePrecondition
  pub assignments : List StateAssignment
  pub native_handler : String

pub record InterruptionContract : Type 0 where
  pub points : List String
  pub partial_state : List String
  pub detection : String
  pub resume_contract : String
  pub rollback_contract : String
  pub compensation_contract : String
  pub recovery : TransitionId
  pub recovery_authority : String
  pub resumption_predicate : String

pub record PolicyContract : Type 0 where
  pub required_when : String
  pub authority_rule : String
  pub availability_rule : String
  pub current_evidence_prefix : String
  pub managed_operations : List String
  pub binds_requested_objective : Bool
  pub reconciles_program : Bool
  pub rechecks_external_state : Bool
  pub objective_scope : ObjectiveScope

pub record FacetCondition : Type 0 where
  pub facet : FacetName
  pub statuses : List FactStatus
  pub values : List String

pub record Transition : Type 0 where
  pub id : TransitionId
  pub version : ℤ  -- int
  pub origin : TransitionOrigin
  pub owner : String
  pub selection_class : SelectionClass
  pub class : EventClass
  pub source_phases : List ProtocolPhase
  pub target_phases : List ProtocolPhase
  pub target_ids : List TargetId
  pub required_identity : List String
  pub authority : List AuthorityClass
  pub authority_all : List AuthorityClass
  pub required_capabilities : List Capability
  pub declared_capabilities : List Capability
  pub runtime_execution : Bool
  pub required_evidence : List String
  pub owned_resources : List String
  pub owned_facets : List StateFacet
  pub state_effect : StateEffect
  pub effect : EffectId
  pub local_effects : List EffectId
  pub external_effects : List EffectId
  pub idempotent : Bool
  pub parameters : List ParameterSpec
  pub prescription : Prescription
  pub source_predicate : String
  pub source_conditions : List FacetCondition
  pub admission_predicate : String
  pub target_predicate : String
  pub target_conditions : List FacetCondition
  pub verifier : String
  pub interruption : InterruptionContract
  pub reversibility : String
  pub terminal_effect : String
  pub privacy_classification : String
  pub telemetry_classification : String
  pub cost_class : String
  pub policy : PolicyContract
  pub priority : ℤ  -- int
  pub allows_identity_rebind : Bool
  pub allows_worktree_transfer : Bool
  pub execution_context : String
  pub binds_source_revision : Bool
  pub authority_fingerprint_parameter : String
  pub work : Option WorkContract
