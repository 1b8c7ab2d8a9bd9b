-- ===== src/Kernel/Runtime.antt =====
-- Resolution of a request, boatstack/kernel/runtime.go. The errors of the ports end it; what it
-- finds wrong with its inputs is a decision.
pub mod Consider
pub mod Resolve
pub mod Apply
pub mod Logged
use boatstack.Base.{
  is_some, ℕ, String, len, slice, Bool, true, false, not, ◌&&◌, ◌||◌, ◌==◌, Option, none, some,
  List, [], ◌∷◌, ◌++◌, map, contains, is_empty, ltb, if◌then◌else◌,
}
use boatstack.Base.Int.{ℤ}
use boatstack.Kernel.Types.{
  Objective, ObjectiveBinding, ProgramIdentity, ControlState, RecoveryState, Capability, Transition,
  Observation, Prescription, AuthorityProjection, identity_eq,
}
use boatstack.Kernel.Trace.{
  DecisionKind, Decision, ObjectiveReason, TraceReason, EvaluationTrace, not_evaluated,
  CandidateDisposition, AuthorityTrace, CandidateTrace, ObjectiveIdentity, ObjectiveTrace,
  RecoveryTrace, DecisionTrace, decision_trace_schema_version, trace_decision,
}
use mathlib.Core.Option
use boatstack.Kernel.Error.{Error, Reason, Result, Check, ok, err}
use boatstack.Kernel.Error
use boatstack.Kernel.Codec.{Codec}
use boatstack.Kernel.Exec.{Exec, lift, pure, ◌>>=◌, ◌>>◌}
use boatstack.Kernel.Capability.{normalize_capabilities}
use boatstack.Kernel.Authority.{projection}
use boatstack.Kernel.State.{validate_state}
use boatstack.Kernel.Program.Compile.{program_identity, is_marked}
use boatstack.Kernel.Relation.{RelationCandidate, relate}
use boatstack.Kernel.Ports.{Evaluation, Runtime, Ports, ResolveRequest}
use boatstack.Kernel.Prescription.{validate_observation, objective_for, new_prescription}

pub record Resolution : Type 0 where
  pub state : ControlState
  pub observation : Observation
  pub decision : Decision
  pub prescription : Option Prescription
  pub trace : Option DecisionTrace

-- requiredCapabilities
unfoldable pub required_capabilities :
    {W : Type 0} → Ports W → Transition → Result (List Capability)
required_capabilities ports t =
    Error.◌>>=◌ (ports.required_by_mechanism t)
      (λ minimum. normalize_capabilities (t.required_capabilities ++ minimum))

identity_of_binding : ObjectiveBinding → ObjectiveIdentity
identity_of_binding b = record {
  id = b.objective_id;
  revision = b.objective_revision;
  fingerprint = b.objective_fingerprint;
}

identity_of_objective : Objective → ObjectiveIdentity
identity_of_objective o = record { id = o.id; revision = o.revision; fingerprint = o.fingerprint }

recovery_trace : RecoveryState → RecoveryTrace
recovery_trace r = record {
  active = true;
  prescription_id = r.prescription_id;
  transition_id = r.transition_id;
  reason = r.reason;
}

-- the decision before one is made
abbrev no_decision : Decision
no_decision = record {
  kind = DecisionKind.unset;
  transition = "";
  candidates = [];
  reason = Reason.no_text;
}

-- newDecisionTrace
unfoldable pub new_decision_trace :
    ControlState → Observation → ResolveRequest → ProgramIdentity → DecisionTrace
unfolding identity_of_binding identity_of_objective recovery_trace trace_decision
new_decision_trace state observation request program = record {
  schema_version = decision_trace_schema_version;
  instance_id = state.instance_id;
  state_revision = state.revision;
  current_mode = state.mode;
  program = program;
  state_program = some state.program;
  observation_fingerprint = observation.fingerprint;
  objective = record {
    binding = Option.map identity_of_binding state.objective_binding;
    requested = Option.map identity_of_objective request.objective;
  };
  authority_fingerprint = "";
  requested_transition = request.requested;
  marked = false;
  recovery = Option.map recovery_trace state.recovery;
  decision = trace_decision no_decision;
  candidates = [];
}

-- boundedTraceReason; a character that the limit cuts is left out, where Go keeps its first bytes
unfoldable pub bounded_trace_reason : String → String
bounded_trace_reason reason = if ltb 1024 (len reason) then slice reason 0 1024 else reason

-- `byID[id]` of a map that the traces filled in order: the last one stays
abbrev pub last_trace : List CandidateTrace → String → Option CandidateTrace
last_trace [] id = none
last_trace (t ∷ ts) id =
    let later = last_trace ts id in
    if is_some later then later else if t.transition_id == id then some t else none

merge_trace : CandidateTrace → Option CandidateTrace → CandidateTrace
merge_trace c none = c
merge_trace c (some r) = record c {
  selectable = r.selectable;
  rank = r.rank;
  priority = r.priority;
  authority = r.authority;
  survived = r.survived;
  disposition = r.disposition;
}

-- mergeRelationTraces
unfoldable pub merge_relation_traces :
    List CandidateTrace → List CandidateTrace → List CandidateTrace
unfolding merge_trace
merge_relation_traces candidates relation =
    map (λ c. merge_trace c (last_trace relation c.transition_id)) candidates

abbrev pub no_authority : AuthorityTrace
no_authority = record {
  available = [];
  required_all = [];
  required_any = [];
  missing_all = [];
  missing_any = [];
  all_satisfied = false;
  any_satisfied = false;
  satisfied = false;
}

-- the `CandidateTrace` literal at the head of the loop
abbrev fresh_trace : Transition → CandidateTrace
fresh_trace t = record {
  transition_id = t.id;
  source_mode = not_evaluated;
  recovery_compatible = not_evaluated;
  objective_scope = not_evaluated;
  objective_mutation = not_evaluated;
  domain_admissible = not_evaluated;
  selection = not_evaluated;
  selectable = false;
  selection_class = "";
  rank = ℤ.pos 0;
  priority = t.priority;
  authority = no_authority;
  survived = false;
  disposition = CandidateDisposition.undisposed;
}

abbrev holds : TraceReason → EvaluationTrace
holds reason = record { evaluated = true; satisfied = true; reason = reason }

abbrev fails_for : TraceReason → EvaluationTrace
fails_for reason = record { evaluated = true; satisfied = false; reason = reason }
