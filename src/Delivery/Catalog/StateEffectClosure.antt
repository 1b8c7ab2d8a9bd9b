-- ===== src/Delivery/Catalog/StateEffectClosure.antt =====
-- boatstack/internal/softwaredelivery/catalog/state_effect_closure.go.
use boatstack.Base.{
  is_some, String, len, Bool, false, not, ◌&&◌, ◌||◌, ◌==◌, eqb, Option, none, some, List, [], ◌∷◌,
  contains, all_of, is_empty, if◌then◌else◌,
}
use boatstack.Kernel.Error.{Check, says, quoted, ok, ◌>>◌, refuse_if}
use boatstack.Delivery.Model.FactStatus
use boatstack.Delivery.Model.FacetName.{FacetName}
use boatstack.Delivery.Model.Phase
use boatstack.Delivery.Model.Phase.{ProtocolPhase}
use boatstack.Delivery.Model.Workspace
use boatstack.Delivery.Model.Configuration
use boatstack.Delivery.Model.RuntimeState
use boatstack.Delivery.Model.Recovery
use boatstack.Delivery.Model.TransactionState
use boatstack.Delivery.Model.Terminal
use boatstack.Delivery.Catalog.EventClass
use boatstack.Delivery.Catalog.StateEffectKind
use boatstack.Delivery.Catalog.Transition.{FacetCondition, StateAssignment, Transition}
use boatstack.Delivery.Catalog.Evaluation.{declares_target_phase}
use boatstack.Delivery.Catalog.StateFacetPolicy.{declared_state_resolver_facet}

-- assignmentLiteral: the first literal assigned to a facet
abbrev literal_of : List StateAssignment → String → Option String
literal_of [] facet = none
literal_of (a ∷ assignments) facet =
    let rest = literal_of assignments facet in
    if a.facet == facet && is_some a.value then a.value else rest

abbrev pub assignment_literal : Transition → String → Option String
assignment_literal t facet = literal_of t.state_effect.assignments facet

-- `len(statuses) == 1 && statuses[0] == FactKnown`
abbrev is_only_known : List String → Bool
is_only_known (status ∷ []) = status == FactStatus.known
is_only_known _ = false

-- whether a condition says that the facet is known, and has one of its values
abbrev pub pins : FacetName → FacetCondition → Bool
pins facet c = c.facet == facet && is_only_known c.statuses && not (is_empty c.values)

-- the loop of sourceGuaranteesValues: the first condition that pins the facet decides
abbrev pub first_pin_allows : FacetName → List String → List FacetCondition → Bool
first_pin_allows facet allowed [] = false
first_pin_allows facet allowed (c ∷ conditions) =
    let rest = first_pin_allows facet allowed conditions in
    if pins facet c then all_of (contains allowed) c.values else rest

-- sourceGuaranteesValues
unfoldable pub source_guarantees_values : Transition → String → List String → Bool
source_guarantees_values t field allowed = elim (declared_state_resolver_facet field) [
  | none ↦ false
  | some facet ↦ first_pin_allows facet allowed t.source_conditions
]

-- resultGuaranteesValues
unfoldable pub result_guarantees_values : Transition → String → List String → Bool
unfolding source_guarantees_values
result_guarantees_values t facet values = elim (assignment_literal t facet) [
  | some value ↦ contains values value
  | none ↦ source_guarantees_values t facet values
]

-- `assignment.Value != nil && *assignment.Value == ""`
abbrev is_empty_literal : Option String → Bool
is_empty_literal none = false
is_empty_literal (some value) = value == ""

-- the inner loop of assignmentsPreserveOrProduceNonEmpty, on one facet
abbrev preserves_or_produces : Bool → List StateAssignment → String → Bool
preserves_or_produces source_valid [] facet = source_valid
preserves_or_produces source_valid (a ∷ assignments) facet =
    let rest = preserves_or_produces source_valid assignments facet in
    if not (a.facet == facet) then rest else not (is_empty_literal a.value)

-- assignmentsPreserveOrProduceNonEmpty
unfoldable pub assignments_preserve_or_produce : Transition → Bool → List String → Bool
assignments_preserve_or_produce t source_valid facets =
    all_of (preserves_or_produces source_valid t.state_effect.assignments) facets

-- resultGuaranteesPhase
unfoldable pub result_guarantees_phase : Transition → List ProtocolPhase → Bool
result_guarantees_phase t phases = elim (assignment_literal t "phase") [
  | some value ↦ contains phases value
  | none ↦ not (is_empty t.source_phases) && all_of (contains phases) t.source_phases
]

-- preservedPhaseIsDeclared
unfoldable pub preserved_phase_is_declared : Transition → Bool
preserved_phase_is_declared t =
    is_some (assignment_literal t "phase")
    || (all_of (declares_target_phase t) t.source_phases && not (is_empty t.source_phases))

-- journalDerivedCoreRecovery
abbrev pub journal_derived_core_recovery : Transition → Bool
journal_derived_core_recovery t =
    t.class == EventClass.recovery
    && not t.runtime_execution
    && is_empty t.state_effect.assignments
    && contains t.owned_resources "recovery-journal"

-- nonEmptyRecoveryValues
abbrev non_empty_recovery_values : List String
non_empty_recovery_values =
    Recovery.resumable ∷ Recovery.rollback ∷ Recovery.compensation ∷ Recovery.reconcile
    ∷ Recovery.escalated ∷ []

-- nonEmptyTransactionValues
abbrev non_empty_transaction_values : List String
non_empty_transaction_values =
    TransactionState.staged ∷ TransactionState.local_applied ∷ TransactionState.external_uncertain
    ∷ TransactionState.verifying ∷ TransactionState.committed ∷ TransactionState.compensating ∷ []

abbrev managed_workspace : List String
managed_workspace =
    Workspace.cut ∷ Workspace.active ∷ Workspace.published ∷ Workspace.landed
    ∷ Workspace.attention_required ∷ Workspace.abandoned ∷ []

-- `if refused { return fmt.Errorf("%s: ...", t.ID) }`
abbrev pub refuse_of : Transition → Bool → String → Check
refuse_of t refused format = refuse_if refused (says format (quoted t.id ∷ []))

-- The checks of the configuration, the runtime and the workspace.
unfoldable pub check_identities : Transition → Check
check_identities t =
    let verified = Configuration.verified ∷ [] in
    let source_configuration = source_guarantees_values t "configuration" verified in
    let configuration = result_guarantees_values t "configuration" verified in
    let source_runtime = source_guarantees_values t "runtime" (RuntimeState.verified ∷ []) in
    let source_workspace = source_guarantees_values t "workspace" managed_workspace in
    refuse_of t (configuration && not source_configuration)
      "%s: declarative verified configuration requires an already verified source; initialization requires a native handler"
    >> refuse_of t
        (configuration
          && not
              (assignments_preserve_or_produce t source_configuration ("config_fingerprint" ∷ [])))
        "%s: declarative verified configuration cannot clear its fingerprint"
    >> refuse_of t
        (result_guarantees_values t "runtime" (RuntimeState.verified ∷ [])
          && not (
              assignments_preserve_or_produce t source_runtime
                ("runtime_version" ∷ "runtime_fingerprint" ∷ "runtime_source" ∷ [])))
        "%s: declarative verified runtime requires version, fingerprint, and source assignments"
    >> refuse_of t
        (result_guarantees_values t "workspace" managed_workspace
          && not (
              assignments_preserve_or_produce t source_workspace (
                "workspace_path" ∷ "workspace_branch" ∷ "workspace_source_path"
                ∷ "workspace_source_id" ∷ "workspace_source_ref" ∷ [])))
        "%s: declarative managed workspace requires complete destination and source identity"

-- The checks of the recovery, the transaction and the phase.
unfoldable pub check_outcome : Transition → List String → Check
check_outcome t assigned =
    let source_recovery = source_guarantees_values t "recovery" non_empty_recovery_values in
    let recovery = result_guarantees_values t "recovery" non_empty_recovery_values in
    let source_transaction =
      source_guarantees_values t "transaction" non_empty_transaction_values in
    refuse_of t
      (recovery
        && (not (
              assignments_preserve_or_produce t source_recovery (
                "transaction_id" ∷ "recovery_cause" ∷ "recovery_source_phase"
                ∷ "recovery_resumption" ∷ []))
            || (not source_recovery && not (contains assigned "recovery_budget"))))
      "%s: declarative recovery state requires complete recovery context"
    >> refuse_of t
        (result_guarantees_values t "transaction" non_empty_transaction_values
          && not (
              assignments_preserve_or_produce t source_transaction
                ("transaction_id" ∷ "transaction_transition" ∷ [])))
        "%s: declarative transaction state requires complete transaction context"
    >> refuse_of t
        (result_guarantees_values t "terminal" (Terminal.established ∷ [])
          && not (result_guarantees_phase t (Phase.terminal ∷ Phase.abandoned ∷ [])))
        "%s: declarative established terminal state requires a terminal or abandoned target phase"
    >> refuse_of t (result_guarantees_phase t (Phase.recovery ∷ []) && not recovery)
        "%s: declarative recovery phase requires a non-empty recovery classification"

-- validateDeclarativeStateClosure, with the facets that are assigned
unfoldable pub validate_declarative_state_closure : Transition → List String → Check
unfolding check_identities check_outcome preserved_phase_is_declared
validate_declarative_state_closure t assigned =
    if not (t.state_effect.kind == StateEffectKind.assignments)
    then ok tt
    else if journal_derived_core_recovery t
    then ok tt
    else refuse_of t (not (preserved_phase_is_declared t))
        "%s: declarative state effect can preserve a source phase outside its target phases"
      >> check_identities t
      >> check_outcome t assigned

-- its case of the program's fingerprint
abbrev check_program_fingerprint : Transition → StateAssignment → Option String → Check
check_program_fingerprint t a (some value) =
    refuse_if (not (value == "") && not (eqb (len value) 64)) (
      says "%s: state-effect assignment %q requires an empty or 64-character fingerprint"
        (quoted t.id ∷ quoted a.facet ∷ []))
check_program_fingerprint t a none =
    refuse_if (not (a.value_from.admission == "expected_program_fingerprint")) (
      says "%s: state-effect assignment %q requires the admitted program fingerprint"
        (quoted t.id ∷ quoted a.facet ∷ []))

-- validateDeterministicAssignment
unfoldable pub validate_deterministic_assignment : Transition → StateAssignment → Check
validate_deterministic_assignment t a =
    if contains ("recovery_source_phase" ∷ "recovery_resumption" ∷ "recovery_budget" ∷ []) a.facet
    then refuse_if (not (is_some a.value)) (
        says "%s: state-effect assignment %q requires a literal constrained value"
          (quoted t.id ∷ quoted a.facet ∷ []))
    else if a.facet == "program_fingerprint"
    then check_program_fingerprint t a a.value
    else ok tt
