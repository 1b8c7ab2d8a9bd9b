-- ===== src/Kernel/Trace.antt =====
-- Decisions and their traces, boatstack/kernel/runtime.go and trace.go.
use boatstack.Base.{ℕ, String, Bool, false, Option, List}
use boatstack.Base.Int.{ℤ}
use boatstack.Kernel.Types.{ProgramIdentity, Capability}
use boatstack.Kernel.Error.{Reason, Argument}

-- `unset` is the empty string, and `other_kind` any text without a constant of its own.
pub data DecisionKind : Type 0 where
  prescribed marked frontier blocked refused unresolved unset : DecisionKind
  other_kind : String → DecisionKind

pub record Decision : Type 0 where
  pub kind : DecisionKind
  pub transition : String
  pub candidates : List String
  pub reason : Reason

-- Why `objectiveFor` found no admissible objective.
pub data ObjectiveReason : Type 0 where
  binding_requires_exact_revision revision_already_bound binding_already_absent : ObjectiveReason
  requires_exact_bound_revision invalid_scope : ObjectiveReason

-- The reason of one evaluation, with what its text is formatted from.
pub data TraceReason : Type 0 where
  no_reason : TraceReason
  not_a_source_mode : String → TraceReason
  is_a_source_mode : TraceReason
  does_not_recover : String → TraceReason
  needs_active_recovery recovery_is_compatible : TraceReason
  objective_rejected : ObjectiveReason → TraceReason
  scope_is_satisfied mutation_is_admissible : TraceReason
  domain_says : String → TraceReason
  -- `fmt.Sprintf` of a format and its arguments
  trace_says : String → List Argument → TraceReason

pub record EvaluationTrace : Type 0 where
  pub evaluated : Bool
  pub satisfied : Bool
  pub reason : TraceReason

abbrev pub not_evaluated : EvaluationTrace
not_evaluated = record { evaluated = false; satisfied = false; reason = TraceReason.no_reason }

-- `undisposed` is the empty string.
pub data CandidateDisposition : Type 0 where
  selected source_mode_rejected recovery_rejected disposition_objective_rejected :
      CandidateDisposition
  domain_rejected authority_frontier shadowed ambiguous : CandidateDisposition
  explicitly_refused irrelevant_to_request undisposed : CandidateDisposition

pub record AuthorityTrace : Type 0 where
  pub available : List Capability
  pub required_all : List Capability
  pub required_any : List Capability
  pub missing_all : List Capability
  pub missing_any : List Capability
  pub all_satisfied : Bool
  pub any_satisfied : Bool
  pub satisfied : Bool

pub record CandidateTrace : Type 0 where
  pub transition_id : String
  pub source_mode : EvaluationTrace
  pub recovery_compatible : EvaluationTrace
  pub objective_scope : EvaluationTrace
  pub objective_mutation : EvaluationTrace
  pub domain_admissible : EvaluationTrace
  pub selection : EvaluationTrace
  pub selectable : Bool
  pub selection_class : String
  pub rank : ℤ  -- int
  pub priority : ℤ  -- int
  pub authority : AuthorityTrace
  pub survived : Bool
  pub disposition : CandidateDisposition

pub record DecisionTraceValue : Type 0 where
  pub kind : DecisionKind
  pub transition : String
  pub candidates : List String
  pub reason : Reason

pub record ObjectiveIdentity : Type 0 where
  pub id : String
  pub revision : ℕ  -- uint64
  pub fingerprint : String

pub record ObjectiveTrace : Type 0 where
  pub binding : Option ObjectiveIdentity
  pub requested : Option ObjectiveIdentity

pub record RecoveryTrace : Type 0 where
  pub active : Bool
  pub prescription_id : String
  pub transition_id : String
  pub reason : String

pub record DecisionTrace : Type 0 where
  pub schema_version : ℤ  -- int
  pub instance_id : String
  pub state_revision : ℕ  -- uint64
  pub current_mode : String
  pub program : ProgramIdentity
  pub state_program : Option ProgramIdentity
  pub observation_fingerprint : String
  pub objective : ObjectiveTrace
  pub authority_fingerprint : String
  pub requested_transition : String
  pub marked : Bool
  pub recovery : Option RecoveryTrace
  pub decision : DecisionTraceValue
  pub candidates : List CandidateTrace

abbrev pub decision_trace_schema_version : ℤ
decision_trace_schema_version = ℤ.pos 1

-- TraceDecision
unfoldable pub trace_decision : Decision → DecisionTraceValue
trace_decision d = record {
  kind = d.kind;
  transition = d.transition;
  candidates = d.candidates;
  reason = d.reason;
}
