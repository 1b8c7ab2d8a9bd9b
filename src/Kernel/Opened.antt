-- ===== src/Kernel/Opened.antt =====
-- The code of the kernel, opened as a whole for the runs in the tests.
use boatstack.Base.{contains}
use boatstack.Base.Sort.{sort, insert}
use boatstack.Base.Text.{str_ltb}
use boatstack.Kernel.Exec.{◌>>=◌, lift, pure, wrapping, finally}
use boatstack.Kernel.State.{validate_state, validate_identity, validate_recovery}
use boatstack.Kernel.Identifier.{semantic_id, qualified_semantic_id}
use boatstack.Kernel.Objective.{
  validate_optional_binding, validate_binding, validate_objective, bind_objective_to,
  binding_matches, equal_binding, new_objective,
}
use boatstack.Kernel.Prescription.{
  validate_observation, objective_for, new_prescription, bind_optional, bound_to, validate_current,
}
use boatstack.Kernel.Program.{validate_transition, canonical_ids, canonical_qualified_ids}
use boatstack.Kernel.Program.Compile.{
  program_identity, is_marked, prepare, compile_domain_program, compile_program, validate_program,
  find_transition, clone_program,
}
use boatstack.Kernel.Authority.{projection, validate_receipt_at}
use boatstack.Kernel.Capability.{normalize_capabilities, validate_capability}
use boatstack.Kernel.Relation.{
  relate, decide, requested_candidates, eligible, missing_authority, authority_trace, choose,
  finish_trace, initial_trace,
}
use boatstack.Kernel.Codec.{content_hash}
use boatstack.Kernel.Freshness.{new_freshness, validate_freshness, check_freshness}
use boatstack.Kernel.Receipt.{validate_effects, validate_receipt}
use boatstack.Kernel.Trace.{trace_decision}
use boatstack.Kernel.Runtime.{
  bounded_trace_reason, merge_relation_traces, new_decision_trace, required_capabilities,
}
use boatstack.Kernel.Runtime.Resolve.{precheck, resolve, resolve_request}
use boatstack.Kernel.Runtime.Consider.{consider, consider_all, recovery_rejects}
use boatstack.Kernel.Runtime.Apply.{
  attempt_state, target_state, target_binding, draft_receipt, commit_receipt, settle, carry_out,
  read_current, admit, prepare_attempt, apply, is_stale, is_recovery_required, new_runtime,
}

unfoldable pub kernel_code : Unit {0}
unfolding contains sort insert str_ltb ◌>>=◌ lift pure wrapping finally validate_state
    validate_identity validate_recovery semantic_id qualified_semantic_id validate_optional_binding
    validate_binding validate_objective bind_objective_to binding_matches equal_binding
    new_objective validate_observation objective_for new_prescription bind_optional bound_to
    validate_current validate_transition canonical_ids canonical_qualified_ids program_identity
    is_marked prepare compile_domain_program compile_program validate_program find_transition
    clone_program projection validate_receipt_at normalize_capabilities validate_capability relate
    decide requested_candidates eligible missing_authority authority_trace choose finish_trace
    initial_trace content_hash new_freshness validate_freshness check_freshness validate_effects
    validate_receipt trace_decision bounded_trace_reason merge_relation_traces new_decision_trace
    required_capabilities consider consider_all precheck recovery_rejects resolve resolve_request
    attempt_state target_state target_binding draft_receipt commit_receipt settle carry_out
    read_current admit prepare_attempt apply is_stale is_recovery_required new_runtime
kernel_code = tt
