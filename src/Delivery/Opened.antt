-- ===== src/Delivery/Opened.antt =====
-- The code of software delivery, opened as a whole for the runs in the tests.
use boatstack.Kernel.Opened.{kernel_code}
use boatstack.Delivery.Catalog.Authority.{
  satisfies, collect_capabilities, normalize_capabilities, union_capabilities, missing_capability,
  authority_capabilities, kernel_effect_capabilities, required_capabilities,
}
use boatstack.Delivery.Catalog.Evaluation.{
  evaluate, matches, objective_evaluation, supports_objective, evaluate_conditions,
  source_evaluation, source_matches, target_matches,
}
use boatstack.Delivery.Catalog.NativeStateHandler.{
  check_native_handler, validate_native_state_handler,
}
use boatstack.Delivery.Catalog.ObjectiveContract.{
  check_conditions, compile_contract, compile_contracts, check_supported, new_objective_contracts,
  accepts, contracts_match, all_contracts,
}
use boatstack.Delivery.Catalog.Registry.{
  claim_operations, register, check_recoveries, new_registry, lookup_transition, managed_transition,
  admissible,
}
use boatstack.Delivery.Catalog.SemanticId.{semantic_id}
use boatstack.Delivery.Catalog.StateEffect.{
  implied_by_source, assignment_matches_target, check_precondition_values, check_preconditions,
  check_value_source, check_assignment, check_assignments, check_effect_kind, check_state_effect,
  validate_state_effect,
}
use boatstack.Delivery.Catalog.StateEffectClosure.{
  source_guarantees_values, result_guarantees_values, assignments_preserve_or_produce,
  result_guarantees_phase, preserved_phase_is_declared, check_identities, check_outcome,
  validate_declarative_state_closure, validate_deterministic_assignment,
}
use boatstack.Delivery.Catalog.StateFacetPolicy.{
  declared_state_field_facet, valid_declared_state_literal, declared_state_resolver_facet,
  check_origin, owned_policy, durable_state_facet_policy, recovery_state_facets,
}
use boatstack.Delivery.Catalog.Validate.{
  validate_selection_ownership, check_classes, check_scope, check_effects, check_predicates,
  check_interruption, check_operations, check_policy, check_declarations, validate_transition,
}
use boatstack.Delivery.Catalog.WorkContract.{
  check_inputs, check_output, check_outputs, check_work, validate_work_contract,
}
use boatstack.Delivery.Model.Canonicalize.{
  observation_fingerprint, check_named_facts, check_observation, to_snapshot, canonicalize,
  canonicalize_for_program, foreground_work_context_fingerprint,
}
use boatstack.Delivery.Model.Contexts.{
  canonical, check_hosts, validate_policy, validate_recovery_context, validate_transaction_context,
}
use boatstack.Delivery.Model.Facet.{facet}
use boatstack.Delivery.Model.FacetName.{is_namespaced}
use boatstack.Delivery.Model.Fact.{check_evidence, validate_fact}
use boatstack.Delivery.Model.Health.{project_operational_health}
use boatstack.Delivery.Model.Invocation.{validate_invocation}
use boatstack.Delivery.Model.Objective.{is_valid_target, validate_objective}
use boatstack.Delivery.Model.Observation.{executable_runtime_admitted}
use boatstack.Delivery.Model.StateFacets.{
  check_state_facets, normalize_state_facets, union_state_facets,
}
use boatstack.Delivery.Supervisor.Classify.{classify_command_intent}
use boatstack.Delivery.Supervisor.Guard.{validate_intent, guard}
use boatstack.Delivery.Supervisor.Policy.{
  authority_capability, available_authority, required_any, policy_authority, required_all,
  permitted_program_drift_recovery, current_evidence_recorded, target_already_satisfied,
  policy_allows,
}
use boatstack.Delivery.Supervisor.Resolve.{
  consider_domain, consider_objective, consider_source, consider, candidates_of, survivor, precheck,
  merge_relation_trace, resolve_with_trace, resolve,
}

unfoldable pub delivery_code : Unit {0}
unfolding kernel_code satisfies collect_capabilities normalize_capabilities union_capabilities
    missing_capability authority_capabilities kernel_effect_capabilities required_capabilities
    evaluate matches objective_evaluation supports_objective evaluate_conditions source_evaluation
    source_matches target_matches check_native_handler validate_native_state_handler
    check_conditions compile_contract compile_contracts check_supported new_objective_contracts
    accepts contracts_match all_contracts claim_operations register check_recoveries new_registry
    lookup_transition managed_transition admissible semantic_id implied_by_source
    assignment_matches_target check_precondition_values check_preconditions check_value_source
    check_assignment check_assignments check_effect_kind check_state_effect validate_state_effect
    source_guarantees_values result_guarantees_values assignments_preserve_or_produce
    result_guarantees_phase preserved_phase_is_declared check_identities check_outcome
    validate_declarative_state_closure validate_deterministic_assignment declared_state_field_facet
    valid_declared_state_literal declared_state_resolver_facet check_origin owned_policy
    durable_state_facet_policy recovery_state_facets validate_selection_ownership check_classes
    check_scope check_effects check_predicates check_interruption check_operations check_policy
    check_declarations validate_transition check_inputs check_output check_outputs check_work
    validate_work_contract observation_fingerprint check_named_facts check_observation to_snapshot
    canonicalize canonicalize_for_program foreground_work_context_fingerprint canonical check_hosts
    validate_policy validate_recovery_context validate_transaction_context facet is_namespaced
    check_evidence validate_fact project_operational_health validate_invocation is_valid_target
    validate_objective executable_runtime_admitted check_state_facets normalize_state_facets
    union_state_facets classify_command_intent validate_intent guard authority_capability
    available_authority required_any policy_authority required_all permitted_program_drift_recovery
    current_evidence_recorded target_already_satisfied policy_allows consider_domain
    consider_objective consider_source consider candidates_of survivor precheck merge_relation_trace
    resolve_with_trace resolve
delivery_code = tt
