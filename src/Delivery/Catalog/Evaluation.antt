-- ===== src/Delivery/Catalog/Evaluation.antt =====
-- The predicates of a transition and their reasons,
-- boatstack/internal/softwaredelivery/catalog/transition.go.
pub mod Condition
use boatstack.Base.{
  ℕ, String, Bool, true, false, not, ◌&&◌, ◌||◌, ◌==◌, Option, none, some, List, [], ◌∷◌, contains,
  all_of, is_empty, if◌then◌else◌,
}
use boatstack.Base.Int.{ℤ}
use boatstack.Kernel.Types.{ObjectiveScope}
use boatstack.Kernel.Trace.{TraceReason, trace_says}
use boatstack.Kernel.Error.{quoted, listed}
use boatstack.Delivery.Model.Fact.{is_known}
use boatstack.Delivery.Model.FactStatus
use boatstack.Delivery.Model.FacetName
use boatstack.Delivery.Model.FacetName.{FacetName}
use boatstack.Delivery.Model.Facet.{FacetView, facet}
use boatstack.Delivery.Model.Phase.{ProtocolPhase}
use boatstack.Delivery.Model.Objective.{Objective, TargetId, trusted_objective_class}
use boatstack.Delivery.Model.Observation.{Snapshot}
use boatstack.Delivery.Catalog.OriginKind
use boatstack.Delivery.Catalog.SelectionClass
use boatstack.Delivery.Catalog.SelectionClass.{SelectionClass}
use boatstack.Delivery.Catalog.EventClass
use boatstack.Delivery.Catalog.Transition.{FacetCondition, Transition}

-- SelectionClass.Rank
abbrev pub rank : SelectionClass → ℤ
rank class =
    if class == SelectionClass.system_recovery
    then ℤ.pos 1
    else if class == SelectionClass.program_recovery
    then ℤ.pos 2
    else if class == SelectionClass.extension_recovery
    then ℤ.pos 3
    else if class == SelectionClass.objective_required
    then ℤ.pos 4
    else if class == SelectionClass.program_progress
    then ℤ.pos 5
    else if class == SelectionClass.explicit_only
    then ℤ.pos 6
    else if class == SelectionClass.observed_external
    then ℤ.pos 7
    else ℤ.pos 99

-- Transition.Controllable, and EventClass.Controllable of its class
abbrev pub controllable : Transition → Bool
controllable t = not (t.class == EventClass.observed_external)

-- Transition.ImplicitlySelectable
abbrev pub implicitly_selectable : Transition → Bool
implicitly_selectable t =
    t.selection_class == SelectionClass.system_recovery
    || t.selection_class == SelectionClass.program_recovery
    || t.selection_class == SelectionClass.extension_recovery
    || t.selection_class == SelectionClass.objective_required
    || t.selection_class == SelectionClass.program_progress

-- traceSafeFacetValue
abbrev trace_safe_facet_value : FacetName → Bool
trace_safe_facet_value name =
    contains
      (FacetName.phase ∷ FacetName.program ∷ FacetName.topology ∷ FacetName.engagement
        ∷ FacetName.delivery ∷ FacetName.workspace ∷ FacetName.work_package ∷ FacetName.plan
        ∷ FacetName.configuration ∷ FacetName.runtime ∷ FacetName.publication
        ∷ FacetName.verification ∷ FacetName.recovery ∷ FacetName.transaction ∷ FacetName.terminal
        ∷ [])
      name

-- An answer and its reason.
abbrev pub Answer : Type 0
Answer = Bool × TraceReason

abbrev pub allowed_value : FacetCondition → String → Answer
allowed_value c value =
    if not (trace_safe_facet_value c.facet)
    then (true, trace_says "source facet %q has an allowed value" (quoted c.facet ∷ []))
    else (
      true,
      trace_says "source facet %q has allowed value %q" (quoted c.facet ∷ quoted value ∷ []),
    )

abbrev pub refused_value : FacetCondition → String → Answer
refused_value c value =
    if not (trace_safe_facet_value c.facet)
    then (
      false,
      trace_says "source facet %q does not match its allowed values" (quoted c.facet ∷ []),
    )
    else (
      false,
      trace_says "source facet %q has value %q; requires one of %v"
          (quoted c.facet ∷ quoted value ∷ listed c.values ∷ []),
    )

-- FacetCondition.Evaluate on what Snapshot.Facet returned
abbrev pub evaluate_view : FacetCondition → Option FacetView → Answer
evaluate_view c none = (false, trace_says "source facet %q is unavailable" (quoted c.facet ∷ []))
evaluate_view c (some (status, value)) =
    if not (contains c.statuses status)
    then (
      false,
      trace_says "source facet %q has status %q; requires one of %v"
          (quoted c.facet ∷ quoted status ∷ listed c.statuses ∷ []),
    )
    else if is_empty c.values
    then (true, trace_says "source facet %q has an allowed status" (quoted c.facet ∷ []))
    else if contains c.values value
    then allowed_value c value
    else refused_value c value

-- FacetCondition.Evaluate
unfoldable pub evaluate : FacetCondition → Snapshot → Answer
evaluate c s = evaluate_view c (facet s c.facet)

-- FacetCondition.Matches
unfoldable pub matches : FacetCondition → Snapshot → Bool
unfolding evaluate
matches c s = (evaluate c s).0

-- `targetID` of ObjectiveEvaluation
abbrev pub evaluated_target : Transition → Objective → TargetId
evaluated_target t g =
    if t.origin.kind == OriginKind.core_system then trusted_objective_class g else g.target_id

abbrev pub is_optional_preserve : ObjectiveScope → Bool
is_optional_preserve ObjectiveScope.objective_optional_preserve = true
is_optional_preserve _ = false

-- Transition.ObjectiveEvaluation
unfoldable pub objective_evaluation : Transition → Objective → Answer
objective_evaluation t g =
    if is_optional_preserve t.policy.objective_scope
    then (true, trace_says "transition preserves the current objective binding" [])
    else if is_empty t.target_ids
    then (true, trace_says "transition is not restricted to an objective target" [])
    else if contains t.target_ids (evaluated_target t g)
    then (true, trace_says "objective target %q is in scope" (quoted (evaluated_target t g) ∷ []))
    else (
      false,
      trace_says "objective target %q is outside supported targets %v"
          (quoted (evaluated_target t g) ∷ listed t.target_ids ∷ []),
    )

-- Transition.SupportsObjective
unfoldable pub supports_objective : Transition → Objective → Bool
unfolding objective_evaluation
supports_objective t g = (objective_evaluation t g).0

-- the last test of SourceEvaluation
abbrev preserve_answer : Transition → Snapshot → Answer
preserve_answer t s =
    if is_optional_preserve t.policy.objective_scope
      && (not (is_known s.objective) && not (s.objective.status == FactStatus.absent))
    then (
      false,
      trace_says "objective binding status %q cannot be preserved" (quoted s.objective.status ∷ []),
    )
    else (true, trace_says "source phase and domain facets are satisfied" [])

-- the loop of SourceEvaluation, and what follows it
unfoldable pub evaluate_conditions : List FacetCondition → Snapshot → Answer → Answer
unfolding evaluate
evaluate_conditions [] s next = next
evaluate_conditions (c ∷ conditions) s next =
    let rest = evaluate_conditions conditions s next in
    let answer = evaluate c s in if not answer.0 then (false, answer.1) else rest

-- Transition.SourceEvaluation
unfoldable pub source_evaluation : Transition → Snapshot → Answer
unfolding evaluate_conditions
source_evaluation t s =
    if not (is_known s.phase) || not (contains t.source_phases s.phase.value)
    then (
      false,
      trace_says "source phase is %q with status %q; requires one of %v"
          (quoted s.phase.value ∷ quoted s.phase.status ∷ listed t.source_phases ∷ []),
    )
    else evaluate_conditions t.source_conditions s (preserve_answer t s)

-- Transition.SourceMatches
unfoldable pub source_matches : Transition → Snapshot → Bool
unfolding source_evaluation
source_matches t s = (source_evaluation t s).0

-- Transition.TargetMatches
unfoldable pub target_matches : Transition → Snapshot → Bool
target_matches t s =
    is_known s.phase
    && contains t.target_phases s.phase.value
    && all_of (λ c. matches c s) t.target_conditions

-- Transition.DeclaresTargetPhase
abbrev pub declares_target_phase : Transition → ProtocolPhase → Bool
declares_target_phase t phase = contains t.target_phases phase
