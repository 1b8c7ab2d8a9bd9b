-- ===== src/Delivery/Supervisor/Resolve.antt =====
-- Supervisor.resolve of boatstack/internal/softwaredelivery/supervisor/supervisor.go.
pub mod Consider
pub mod Sound
pub mod Live
pub mod Drift
use boatstack.Base.{
  is_some, String, Bool, true, false, not, ◌&&◌, ◌||◌, ◌==◌, Option, none, some, List, [], ◌∷◌, map,
  if◌then◌else◌,
}
use boatstack.Kernel.Trace.{
  prescribed, marked, frontier, blocked, refused, unresolved, TraceReason, no_reason, trace_says,
  EvaluationTrace, not_evaluated, CandidateTrace, CandidateDisposition,
}
use boatstack.Kernel.Trace
use boatstack.Kernel.Error.{Reason, reason_says, quoted, succeeds}
use boatstack.Kernel.Relation.{RelationCandidate, RelationInput, is_prescribed, relate}
use boatstack.Kernel.Runtime.{last_trace, no_authority}
use boatstack.Delivery.Model.Fact.{is_known}
use boatstack.Delivery.Model.FactStatus
use boatstack.Delivery.Model.ProgramState
use boatstack.Delivery.Model.Phase
use boatstack.Delivery.Model.Objective.{Objective, objective_eq, validate_objective}
use boatstack.Delivery.Model.Observation.{Snapshot}
use boatstack.Delivery.Catalog.EventClass
use boatstack.Delivery.Catalog.Transition.{Transition, TransitionId}
use boatstack.Delivery.Catalog.Evaluation.{
  Answer, controllable, implicitly_selectable, objective_evaluation, rank, source_evaluation,
}
use boatstack.Delivery.Catalog.Authority.{AuthoritySet}
use boatstack.Delivery.Catalog.ObjectiveContract.{ObjectiveContracts, accepts, contracts_match}
use boatstack.Delivery.Catalog.Registry.{Registry, lookup_transition}
use boatstack.Delivery.Supervisor.DecisionKind
use boatstack.Delivery.Supervisor.DecisionKind.{DecisionKind}
use boatstack.Delivery.Supervisor.Policy.{
  available_authority, host_enabled, permitted_program_drift_recovery, policy_allows, required_all,
  required_any, target_already_satisfied,
}

pub record Decision : Type 0 where
  pub kind : DecisionKind
  pub snapshot_fingerprint : String
  pub transition : Option Transition
  pub candidates : List TransitionId
  pub reason : Reason

pub record Supervisor : Type 0 where
  pub registry : Registry
  pub contracts : ObjectiveContracts

-- The arguments of `resolve`.
pub record Request : Type 0 where
  pub snapshot : Snapshot
  pub objective : Objective
  pub authority : AuthoritySet
  pub requested : TransitionId

abbrev evaluated : Answer → EvaluationTrace
evaluated (satisfied, why) = record { evaluated = true; satisfied = satisfied; reason = why }

abbrev says_text : String → TraceReason
says_text text = trace_says text []

-- the trace that a round of the loop starts with
abbrev pub start_trace : Transition → CandidateTrace
start_trace t = record {
  transition_id = t.id;
  source_mode = not_evaluated;
  recovery_compatible = not_evaluated;
  objective_scope = not_evaluated;
  objective_mutation = not_evaluated;
  domain_admissible = not_evaluated;
  selection = not_evaluated;
  selectable = false;
  selection_class = t.selection_class;
  rank = rank t.selection_class;
  priority = t.priority;
  authority = no_authority;
  survived = false;
  disposition = CandidateDisposition.undisposed;
}

-- What a round of the loop adds: a trace, and a candidate where the transition survived.
abbrev pub Considered : Type 0
Considered = CandidateTrace × Option RelationCandidate

abbrev reject : CandidateTrace → CandidateDisposition → Considered
reject trace disposition = (record trace { disposition = disposition }, none)

-- `selectable`
abbrev pub is_selectable : Request → Transition → Bool
is_selectable r t =
    implicitly_selectable t && not (target_already_satisfied r.snapshot r.objective t)

abbrev selection_reason : Request → Transition → TraceReason
selection_reason r t =
    if not (implicitly_selectable t)
    then says_text "transition requires an explicit request"
    else if target_already_satisfied r.snapshot r.objective t
    then says_text "transition target is already satisfied"
    else says_text "transition is selectable for untargeted progress"

-- the candidate that a round of the loop appends
abbrev pub candidate_of : Request → Transition → RelationCandidate
candidate_of r t = record {
  id = t.id;
  rank = rank t.selection_class;
  priority = t.priority;
  selectable = is_selectable r t;
  required_all = required_all r.snapshot t;
  required_any = required_any t;
}

-- a transition that survived
abbrev survive : Request → Transition → CandidateTrace → Considered
survive r t trace = (
  record trace {
    selection = evaluated (is_selectable r t, selection_reason r t);
    selectable = is_selectable r t;
    survived = true;
    disposition = CandidateDisposition.shadowed;
  },
  some (candidate_of r t),
)

-- the reason where policyAllows gave none
abbrev domain_reason : TraceReason → TraceReason
domain_reason no_reason = says_text "software-delivery predicates are satisfied"
domain_reason why = why

unfoldable pub consider_domain : Request → Transition → CandidateTrace → Considered
consider_domain r t trace =
    let answer = policy_allows r.snapshot t in
    if not answer.0
    then reject (record trace { domain_admissible = evaluated answer })
        CandidateDisposition.domain_rejected
    else survive r t
        (record trace { domain_admissible = evaluated (answer.0, domain_reason answer.1) })

-- `snapshot.Objective.Value != objective && !transition.Policy.BindsRequestedObjective` of a known one
abbrev pub replaces_binding : Request → Transition → Bool
replaces_binding r t =
    is_known r.snapshot.objective
    && not (objective_eq r.snapshot.objective.value r.objective)
    && not t.policy.binds_requested_objective

-- the trace of a transition whose objective is in scope and keeps its binding
abbrev pub with_objective : Request → Transition → CandidateTrace → CandidateTrace
with_objective r t trace = record trace {
  objective_scope = evaluated (objective_evaluation t r.objective);
  objective_mutation = evaluated (true, says_text "objective binding is compatible");
}

unfoldable pub consider_objective : Request → Transition → CandidateTrace → Considered
unfolding consider_domain
consider_objective r t trace =
    let answer = objective_evaluation t r.objective in
    let scoped = record trace { objective_scope = evaluated answer } in
    let mutates = says_text "transition cannot replace the current objective binding" in
    if not answer.0
    then reject scoped CandidateDisposition.disposition_objective_rejected
    else if replaces_binding r t
    then reject (record scoped { objective_mutation = evaluated (false, mutates) })
        CandidateDisposition.disposition_objective_rejected
    else consider_domain r t (with_objective r t trace)

-- only a recovery starts in the phase of recovery
abbrev pub incompatible_recovery : Request → Transition → Bool
incompatible_recovery r t =
    r.snapshot.phase.value == Phase.recovery && not (t.class == EventClass.recovery)

-- the trace of a transition whose source holds, and is compatible with a recovery
abbrev pub with_source : Request → Transition → CandidateTrace → CandidateTrace
with_source r t trace = record trace {
  source_mode = evaluated (source_evaluation t r.snapshot);
  recovery_compatible = evaluated (true, says_text "recovery state is compatible");
}

unfoldable pub consider_source : Request → Transition → CandidateTrace → Considered
unfolding consider_objective
consider_source r t trace =
    let answer = source_evaluation t r.snapshot in
    let sourced = record trace { source_mode = evaluated answer } in
    let incompatible =
      says_text "only recovery transitions are compatible with the recovery phase" in
    if not answer.0
    then reject sourced CandidateDisposition.source_mode_rejected
    else if incompatible_recovery r t
    then reject (record sourced { recovery_compatible = evaluated (false, incompatible) })
        CandidateDisposition.recovery_rejected
    else consider_objective r t (with_source r t trace)

-- a round of the loop over the transitions
unfoldable pub consider : Request → Transition → Considered
unfolding consider_source
consider r t =
    let trace = start_trace t in
    let observed = says_text "observed external events are not controllable candidates" in
    if not (r.requested == "") && not (t.id == r.requested)
    then reject trace CandidateDisposition.irrelevant_to_request
    else if not (controllable t)
    then reject (record trace { domain_admissible = evaluated (false, observed) })
        CandidateDisposition.domain_rejected
    else consider_source r t trace

-- `append(candidates, ...)`
abbrev pub add_candidate :
    Option RelationCandidate → List RelationCandidate → List RelationCandidate
add_candidate none candidates = candidates
add_candidate (some candidate) candidates = candidate ∷ candidates

-- `candidates` after the loop
unfoldable pub candidates_of : Request → List Transition → List RelationCandidate
unfolding consider
candidates_of r [] = []
candidates_of r (t ∷ transitions) = add_candidate (consider r t).1 (candidates_of r transitions)

abbrev pub later_or : Option Transition → Option Transition → Option Transition
later_or (some t) earlier = some t
later_or none earlier = earlier

-- `byID[id]` after the loop: the last transition of that identity that survived
unfoldable pub survivor : Request → List Transition → String → Option Transition
unfolding consider
survivor r [] id = none
survivor r (t ∷ transitions) id =
    later_or (survivor r transitions id)
      (if is_some ((consider r t).1) && t.id == id then some t else none)

-- `!ok || !transition.Controllable()`
abbrev is_not_controllable : Option Transition → Bool
is_not_controllable none = true
is_not_controllable (some t) = not (controllable t)

-- `!ok || (!ReconcilesProgram && !permittedProgramDriftRecovery(...))`
abbrev pub cannot_leave_drift : Snapshot → Option Transition → Bool
cannot_leave_drift s none = true
cannot_leave_drift s (some t) =
    not t.policy.reconciles_program && not (permitted_program_drift_recovery s t)

-- `objectiveProvided`
abbrev pub objective_provided : Objective → Bool
objective_provided g =
    not (g.id == "")
    || not (g.target_id == "")
    || not (g.trusted_class == "")
    || not (g.delivery_id == "")

abbrev pub invalid_inputs : Request → Bool
invalid_inputs r =
    (objective_provided r.objective && not (succeeds (validate_objective r.objective)))
    || (not (objective_provided r.objective)
        && not (r.snapshot.objective.status == FactStatus.absent))
    || r.snapshot.fingerprint == ""

abbrev says_reason : DecisionKind → String → Option (DecisionKind × Reason)
says_reason kind text = some (kind, reason_says text [])

-- The decisions before the loop: `none` where resolution goes on.
unfoldable pub precheck : Supervisor → Request → Option (DecisionKind × Reason)
precheck supervisor r =
    let s = r.snapshot in
    let requested = lookup_transition supervisor.registry r.requested in
    if invalid_inputs r
    then says_reason DecisionKind.unresolved "objective or canonical snapshot is invalid"
    else if objective_provided r.objective && not (accepts supervisor.contracts r.objective)
    then says_reason DecisionKind.refused
        "objective target and trusted class do not match the compiled program"
    else if not (is_known s.terminal) || not (is_known s.phase)
    then says_reason DecisionKind.unresolved "terminal or phase evidence is not known"
    else if not (is_known s.program)
    then says_reason DecisionKind.unresolved "compiled control program evidence is not known"
    else if s.program.value == ProgramState.drift && cannot_leave_drift s requested
    then says_reason DecisionKind.unresolved
        "compiled control program drift requires explicit reconciliation"
    else if is_known s.configuration_policy
        && not (host_enabled s.configuration_policy.value.hosts s.invocation.host)
    then some (
      DecisionKind.refused,
      reason_says "host %q is not enabled by repository policy" (quoted s.invocation.host ∷ []),
    )
    else if not (r.requested == "") && is_not_controllable requested
    then some (
      DecisionKind.refused,
      reason_says "transition %q is not a controllable registry event" (quoted r.requested ∷ []),
    )
    else none

-- `noCandidate`
abbrev no_candidate : Snapshot → Trace.DecisionKind
no_candidate s =
    if s.phase.value == Phase.recovery || s.phase.value == Phase.unresolved
    then blocked
    else unresolved

-- the input of `RelateWithTrace`
abbrev pub relation_input : Supervisor → Request → RelationInput
relation_input supervisor r = record {
  requested = r.requested;
  marked = contracts_match supervisor.contracts r.snapshot r.objective;
  no_candidate = no_candidate r.snapshot;
  candidates = candidates_of r supervisor.registry.ordered;
  available = available_authority r.authority;
}

merge_trace : CandidateTrace → Option CandidateTrace → CandidateTrace
merge_trace c none = c
merge_trace c (some resolved) = record c {
  selectable = resolved.selectable;
  authority = resolved.authority;
  survived = resolved.survived;
  disposition = resolved.disposition;
}

-- mergeRelationTrace
unfoldable pub merge_relation_trace :
    List CandidateTrace → List CandidateTrace → List CandidateTrace
unfolding merge_trace
merge_relation_trace candidates relation =
    map (λ c. merge_trace c (last_trace relation c.transition_id)) candidates

-- mapDecisionKind
abbrev pub map_decision_kind : Trace.DecisionKind → DecisionKind
map_decision_kind prescribed = DecisionKind.prescribed
map_decision_kind marked = DecisionKind.terminal
map_decision_kind frontier = DecisionKind.frontier
map_decision_kind blocked = DecisionKind.blocked
map_decision_kind refused = DecisionKind.refused
map_decision_kind _ = DecisionKind.unresolved

-- the transition of a prescription
abbrev pub prescribed_transition : Request → List Transition → Trace.Decision → Option Transition
prescribed_transition r transitions d =
    if is_prescribed d.kind then survivor r transitions d.transition else none

-- the end of `resolve`, on what `RelateWithTrace` returned
abbrev pub decide_with :
    Supervisor → Request → Trace.Decision × List CandidateTrace → Decision × List CandidateTrace
decide_with supervisor r (relation, relation_traces) = (
  record {
    kind = map_decision_kind relation.kind;
    snapshot_fingerprint = r.snapshot.fingerprint;
    transition = prescribed_transition r supervisor.registry.ordered relation;
    candidates = relation.candidates;
    reason = relation.reason;
  },
  merge_relation_trace (map (λ t. (consider r t).0) supervisor.registry.ordered) relation_traces,
)

-- what `resolve` does after `precheck`
abbrev pub resolve_after :
    Supervisor → Request → Option (DecisionKind × Reason) → Decision × List CandidateTrace
resolve_after supervisor r (some (kind, why)) = (
  record {
    kind = kind;
    snapshot_fingerprint = r.snapshot.fingerprint;
    transition = none;
    candidates = [];
    reason = why;
  },
  [],
)
resolve_after supervisor r none = decide_with supervisor r (relate (relation_input supervisor r))

-- Supervisor.resolve, and ResolveWithTrace
unfoldable pub resolve_with_trace : Supervisor → Request → Decision × List CandidateTrace
unfolding precheck
resolve_with_trace supervisor r = resolve_after supervisor r (precheck supervisor r)

-- Supervisor.Resolve
unfoldable pub resolve : Supervisor → Request → Decision
unfolding resolve_with_trace
resolve supervisor r = (resolve_with_trace supervisor r).0
