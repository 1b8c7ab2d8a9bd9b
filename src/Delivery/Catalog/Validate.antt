-- ===== src/Delivery/Catalog/Validate.antt =====
-- validateTransition of boatstack/internal/softwaredelivery/catalog/transition.go, in the order of
-- its checks.
pub mod Declared
use Prim.Native.String.{◌++◌}
use boatstack.Base.{
  String, Bool, true, false, not, ◌&&◌, ◌||◌, ◌==◌, Option, none, some, List, [], ◌∷◌, contains,
  any_of, all_of, is_empty, if◌then◌else◌,
}
use boatstack.Base.Int.{ℤ, ltb_ℤ}
use boatstack.Kernel.Types.{ObjectiveScope}
use boatstack.Kernel.Error.{Check, Result, says, quoted, ok, ◌>>=◌, ◌>>◌, refuse_if}
use boatstack.Delivery.Ports.{Library}
use boatstack.Delivery.Model.FactStatus
use boatstack.Delivery.Model.FactStatus.{FactStatus}
use boatstack.Delivery.Model.FacetName
use boatstack.Delivery.Model.FacetName.{FacetName}
use boatstack.Delivery.Model.Phase
use boatstack.Delivery.Model.Phase.{ProtocolPhase}
use boatstack.Delivery.Model.Objective.{TargetId, is_valid_target}
use boatstack.Delivery.Catalog.OriginKind
use boatstack.Delivery.Catalog.SelectionClass
use boatstack.Delivery.Catalog.EventClass
use boatstack.Delivery.Catalog.AuthorityClass
use boatstack.Delivery.Catalog.AuthorityClass.{AuthorityClass}
use boatstack.Delivery.Catalog.SemanticId.{semantic_id}
use boatstack.Delivery.Catalog.Transition.{
  FacetCondition, InterruptionContract, ParameterSpec, Transition,
}
use boatstack.Delivery.Catalog.Evaluation.{controllable, is_optional_preserve}
use boatstack.Delivery.Catalog.Authority.{
  kernel_effect_capabilities, missing_capability, new_capability_set, normalize_capabilities,
  union_capabilities,
}
use boatstack.Delivery.Catalog.StateFacetPolicy.{durable_state_facet_policy}
use boatstack.Delivery.Catalog.StateEffectClosure.{refuse_of}
use boatstack.Delivery.Catalog.StateEffect.{validate_state_effect}
use boatstack.Delivery.Catalog.WorkContract.{validate_work_contract}

-- `if t.Origin.Kind != kind || t.Class != EventRecovery`
abbrev pub reserves : Transition → String → Bool
reserves t kind = not (t.origin.kind == kind) || not (t.class == EventClass.recovery)

-- validateSelectionOwnership
unfoldable pub validate_selection_ownership : Transition → Check
validate_selection_ownership t =
    if t.selection_class == SelectionClass.system_recovery
    then refuse_of t (reserves t OriginKind.core_system)
        "%s: SYSTEM_RECOVERY is reserved for CoreSystem recovery events"
    else if t.selection_class == SelectionClass.program_recovery
    then refuse_of t (reserves t OriginKind.control_program)
        "%s: PROGRAM_RECOVERY is reserved for ProgramRuntime recovery events"
    else if t.selection_class == SelectionClass.extension_recovery
    then refuse_of t (reserves t OriginKind.extension)
        "%s: EXTENSION_RECOVERY is reserved for extension recovery events"
    else refuse_of t (t.class == EventClass.recovery)
        "%s: recovery event requires its origin-specific recovery selection class"

-- From the identity to the ownership of the selection class.
unfoldable pub check_classes : Transition → Check
unfolding validate_selection_ownership
check_classes t = do
  refuse_if (t.id == "" || not (semantic_id t.id))
      (says "invalid semantic id %q" (quoted t.id ∷ []))
  refuse_if (not (EventClass.is_valid t.class))
      (says "%s: invalid event class %q" (quoted t.id ∷ quoted t.class ∷ []))
  refuse_of t
      (not (OriginKind.is_valid t.origin.kind)
        || t.origin.id == ""
        || t.origin.version == ""
        || t.origin.manifest_fingerprint == ""
        || t.owner == "")
      "%s: transition origin, owner, version, and manifest fingerprint are required"
  policy ← durable_state_facet_policy t
  validate_state_effect t
  refuse_if (not (SelectionClass.is_valid t.selection_class))
      (says "%s: invalid selection class %q" (quoted t.id ∷ quoted t.selection_class ∷ []))
  refuse_of t
      (t.class == EventClass.observed_external
        && not (t.selection_class == SelectionClass.observed_external))
      "%s: observed external transition must use OBSERVED_EXTERNAL selection"
  refuse_of t
      (not (t.class == EventClass.observed_external)
        && t.selection_class == SelectionClass.observed_external)
      "%s: controllable transition cannot use OBSERVED_EXTERNAL selection"
  validate_selection_ownership t

-- the loop over the phases, first those of the source
abbrev check_phases : Transition → List ProtocolPhase → Check
check_phases t [] = ok tt
check_phases t (phase ∷ phases) = do
  refuse_if (not (Phase.is_valid phase))
      (says "%s: invalid phase %q" (quoted t.id ∷ quoted phase ∷ []))
  check_phases t phases

-- the loop over the targets
abbrev check_targets : Transition → List TargetId → List TargetId → Check
check_targets t seen [] = ok tt
check_targets t seen (target ∷ targets) = do
  refuse_of t (not (is_valid_target target) || contains seen target)
      "%s: objective kinds must be valid and unique"
  check_targets t (target ∷ seen) targets

-- the loop over the authority classes, first the alternatives
abbrev check_authority : Transition → List AuthorityClass → Check
check_authority t [] = ok tt
check_authority t (class ∷ classes) = do
  refuse_if (not (AuthorityClass.is_valid class))
      (says "%s: invalid authority class %q" (quoted t.id ∷ quoted class ∷ []))
  check_authority t classes

abbrev execution_contexts : List String
execution_contexts = "" ∷ "preserve" ∷ "advance" ∷ []

-- From the version to the declarations of authority.
unfoldable pub check_scope : Transition → Check
check_scope t = do
  refuse_of t (ltb_ℤ t.version (ℤ.pos 1) || is_empty t.source_phases || is_empty t.target_phases)
      "%s: version, source phases, and target phases are required"
  refuse_if (not (contains execution_contexts t.execution_context)) (
      says "%s: invalid execution context effect %q"
        (quoted t.id ∷ quoted t.execution_context ∷ []))
  check_phases t t.source_phases
  check_phases t t.target_phases
  check_targets t [] t.target_ids
  refuse_of t (is_empty t.authority || is_empty t.required_evidence)
      "%s: authority and evidence declarations are required"
  check_authority t t.authority
  check_authority t t.authority_all

-- `missing`
abbrev pub undeclared_capability : Transition → List String → List String → String
undeclared_capability t required declared =
    missing_capability (union_capabilities (required ∷ kernel_effect_capabilities t ∷ []))
      (new_capability_set declared)

-- The capabilities, and the effect and resources that a controllable transition owns.
unfoldable pub check_effects : Transition → Check
check_effects t = do
  required ← normalize_capabilities (t.id ++ ".required_capabilities") t.required_capabilities
  declared ← normalize_capabilities (t.id ++ ".declared_capabilities") t.declared_capabilities
  refuse_if (controllable t && not (undeclared_capability t required declared == "")) (
      says "%s: CAPABILITY_NOT_DECLARED %q"
        (quoted t.id ∷ quoted (undeclared_capability t required declared) ∷ []))
  refuse_of t (controllable t && t.effect == "") "%s: controllable transition has no owned effect"
  refuse_of t (not (controllable t) && (not (t.effect == "") || not (is_empty t.owned_resources)))
      "%s: observed external transition cannot own effects"
  refuse_of t (controllable t && is_empty t.owned_resources)
      "%s: controllable transition has no owned resource"

-- the loop over the statuses of a condition
abbrev check_statuses : Transition → List FactStatus → Check
check_statuses t [] = ok tt
check_statuses t (status ∷ statuses) = do
  refuse_if (not (FactStatus.is_valid status))
      (says "%s: invalid fact status %q" (quoted t.id ∷ quoted status ∷ []))
  check_statuses t statuses

-- the loop over the conditions, first those of the source
abbrev check_conditions : Transition → List FacetCondition → Check
check_conditions t [] = ok tt
check_conditions t (c ∷ conditions) = do
  refuse_of t
      (not (FacetName.is_valid c.facet) || c.facet == FacetName.phase || is_empty c.statuses)
      "%s: invalid or phase-duplicating facet condition"
  check_statuses t c.statuses
  check_conditions t conditions

-- `len(effects) != 1 || effects[0] != t.Effect`
abbrev is_not_just : List String → String → Bool
is_not_just (e ∷ []) effect = not (e == effect)
is_not_just _ effect = true

-- the scope of the effects, by the class of the event
abbrev check_effect_scope : Transition → Check
check_effect_scope t =
    if t.class == EventClass.owned_external
    then refuse_of t (not (is_empty t.local_effects) || is_not_just t.external_effects t.effect)
        "%s: owned external effect scope is incomplete"
    else if controllable t
    then refuse_of t (is_not_just t.local_effects t.effect || not (is_empty t.external_effects))
        "%s: owned local effect scope is incomplete"
    else refuse_of t (not (is_empty t.local_effects) || not (is_empty t.external_effects))
        "%s: observed event declares an owned effect scope"

-- From the identity and the predicates to the scope of the effects.
unfoldable pub check_predicates : Transition → Check
check_predicates t = do
  refuse_of t
      (is_empty t.required_identity
        || t.source_predicate == ""
        || t.admission_predicate == ""
        || t.target_predicate == ""
        || t.verifier == ""
        || t.prescription.operation == ""
        || t.prescription.expected_postcondition == "")
      "%s: identity, predicates, verifier, and typed prescription are required"
  refuse_of t (is_empty t.source_conditions || is_empty t.target_conditions)
      "%s: source and target facet conditions are required"
  check_conditions t t.source_conditions
  check_conditions t t.target_conditions
  check_effect_scope t

abbrev is_incomplete : InterruptionContract → Bool
is_incomplete c =
    is_empty c.points
    || is_empty c.partial_state
    || c.detection == ""
    || c.resume_contract == ""
    || c.rollback_contract == ""
    || c.compensation_contract == ""
    || c.recovery_authority == ""
    || c.resumption_predicate == ""

-- The contract of an interruption, and the terminal effect.
unfoldable pub check_interruption : Transition → Check
check_interruption t = do
  refuse_of t (is_incomplete t.interruption) "%s: interruption and recovery contract is incomplete"
  refuse_of t (controllable t && t.interruption.recovery == "")
      "%s: controllable transition has no interruption recovery transition"
  refuse_of t (not (controllable t) && not (t.interruption.recovery == ""))
      "%s: observed transition cannot own an interruption recovery transition"
  refuse_of t (t.terminal_effect == "") "%s: terminal effect declaration is required"

-- the loop over the parameters, which returns their names
abbrev check_parameters : Transition → List String → List ParameterSpec → Result (List String)
check_parameters t seen [] = ok seen
check_parameters t seen (p ∷ parameters) = do
  refuse_of t (p.name == "" || contains seen p.name)
      "%s: parameter names must be non-empty and unique"
  check_parameters t (p.name ∷ seen) parameters

-- the loop over the managed operations
unfoldable pub check_operations : Transition → List String → List String → Check
check_operations t seen [] = ok tt
check_operations t seen (operation ∷ operations) = do
  refuse_of t (not (semantic_id operation) || contains seen operation)
      "%s: managed operations must be semantic and unique"
  check_operations t (operation ∷ seen) operations

-- conditionNamesFacet
abbrev names_facet : List FacetCondition → FacetName → Bool
names_facet conditions facet = any_of (λ c. c.facet == facet) conditions

abbrev is_valid_scope : ObjectiveScope → Bool
is_valid_scope (ObjectiveScope.other_scope _) = false
is_valid_scope _ = true

abbrev scope_text : ObjectiveScope → String
scope_text ObjectiveScope.objective_none = "none"
scope_text ObjectiveScope.objective_optional_preserve = "optional-preserve"
scope_text ObjectiveScope.objective_bound_exact = "bound-exact"
scope_text (ObjectiveScope.other_scope value) = value

-- What a transition may do to the objective and the program.
unfoldable pub check_policy : Transition → Check
check_policy t = do
  refuse_if (not (is_valid_scope t.policy.objective_scope)) (
      says "%s: invalid objective scope %q"
        (quoted t.id ∷ quoted (scope_text t.policy.objective_scope) ∷ []))
  refuse_of t (is_optional_preserve t.policy.objective_scope && t.policy.binds_requested_objective)
      "%s: optional-preserve maintenance cannot bind a requested product objective"
  refuse_of t
      (t.policy.binds_requested_objective
        && (not (t.origin.kind == OriginKind.core_system)
            || not (names_facet t.target_conditions FacetName.objective)))
      "%s: requested-objective binding requires a CoreSystem objective target"
  refuse_of t
      (t.policy.reconciles_program
        && (not (t.origin.kind == OriginKind.core_system)
            || not (names_facet t.target_conditions FacetName.program)))
      "%s: program reconciliation requires a CoreSystem program target"

-- `providerDeclared`
abbrev provider_declared : Transition → Bool
provider_declared t =
    contains t.authority AuthorityClass.provider || contains t.authority_all AuthorityClass.provider

-- From the parameters on.
unfoldable pub check_declarations : Library → Transition → Check
unfolding check_operations check_policy
check_declarations library t = do
  names ← check_parameters t [] t.parameters
  check_operations t [] t.policy.managed_operations
  check_policy t
  refuse_of t
      (not (t.authority_fingerprint_parameter == "")
        && (not (contains names t.authority_fingerprint_parameter) || not (provider_declared t)))
      "%s: provider authority binding requires a declared parameter and mandatory provider authority"
  refuse_of t
      (t.reversibility == ""
        || t.privacy_classification == ""
        || t.telemetry_classification == ""
        || t.cost_class == "")
      "%s: recovery/telemetry metadata are incomplete"
  refuse_of t (ltb_ℤ t.priority (ℤ.pos 1)) "%s: priority must be positive"
  validate_work_contract library t

-- validateTransition
unfoldable pub validate_transition : Library → Transition → Check
unfolding check_classes check_scope check_effects check_predicates check_interruption
    check_declarations
validate_transition library t = do
  check_classes t
  check_scope t
  check_effects t
  check_predicates t
  check_interruption t
  check_declarations library t
