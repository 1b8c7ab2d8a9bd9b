-- ===== src/Kernel/Runtime/Resolve.antt =====
-- Runtime.Resolve and Runtime.resolve, boatstack/kernel/runtime.go.
pub mod Quiet
pub mod Eligible
pub mod Sound
use boatstack.Base.{
  is_some, ℕ, String, Bool, true, false, not, ◌&&◌, ◌||◌, ◌==◌, Option, none, some, List, [], ◌∷◌,
  contains, is_empty, if◌then◌else◌,
}
use boatstack.Base.Int.{ℤ}
use boatstack.Kernel.Types.{
  Objective, ControlState, RecoveryState, Capability, Transition, Observation, Prescription,
  AuthorityProjection, identity_eq, ObjectiveScope, ObjectiveMutation,
}
use boatstack.Kernel.Trace.{
  DecisionKind, Decision, ObjectiveReason, TraceReason, CandidateDisposition, CandidateTrace,
  EvaluationTrace, DecisionTrace, trace_decision,
}
use boatstack.Kernel.Error.{Error, Reason, Result, Check, ok, err}
use boatstack.Kernel.Error
use boatstack.Kernel.Exec.{Exec, lift, pure, ◌>>=◌, ◌>>◌}
use boatstack.Kernel.Authority.{projection}
use boatstack.Kernel.State.{validate_state}
use boatstack.Kernel.Program.Compile.{program_identity, is_marked}
use boatstack.Kernel.Relation.{RelationCandidate, RelationInput, relate, is_prescribed}
use boatstack.Kernel.Ports.{Evaluation, Runtime, ResolveRequest}
use boatstack.Kernel.Prescription.{validate_observation, objective_for, new_prescription}
use boatstack.Kernel.Runtime.{
  Resolution, required_capabilities, new_decision_trace, bounded_trace_reason,
  merge_relation_traces, fresh_trace, holds, fails_for,
}
use boatstack.Kernel.Runtime.Consider.{consider_all}

-- the zero value of `Transition`
abbrev zero_transition : Transition
zero_transition = record {
  id = "";
  source_modes = [];
  target_mode = "";
  objective_scope = ObjectiveScope.other_scope "";
  objective_mutation = ObjectiveMutation.other_mutation "";
  required_capabilities = [];
  owned_facets = [];
  operation = "";
  priority = ℤ.pos 0;
  recovers = [];
}

-- `transitions[id]`: what was put there last, and the zero value if nothing was
last_transition : List (String × Transition) → String → Option Transition
last_transition [] id = none
last_transition ((k, t) ∷ rest) id =
    let later = last_transition rest id in
    if is_some later then later else if k == id then some t else none

or_zero : Option Transition → Transition
or_zero none = zero_transition
or_zero (some t) = t

transition_at : List (String × Transition) → String → Transition
unfolding last_transition or_zero
transition_at survivors id = or_zero (last_transition survivors id)

-- a decision that names no transition
abbrev named_none : DecisionKind → Reason → Decision
named_none kind reason = record { kind = kind; transition = ""; candidates = []; reason = reason }

abbrev on_error : Check → (Error → Decision) → Option Decision → Option Decision
on_error (err e) f rest = some (f e)
on_error (ok _) f rest = rest

module _ {W : Type 0} (runtime : Runtime W) where
  -- the clock port, which returns no error
  abbrev pub clock : Exec W ℕ
  clock w = let (now, w') = runtime.ports.now w in (ok now, w')

  -- the checks of `resolve` that come before the authority: the decision that they end in
  unfoldable pub precheck : ControlState → Observation → ResolveRequest → Option Decision
  precheck state observation request =
      on_error (validate_state state)
        (λ e. named_none DecisionKind.unresolved (Reason.control_state_invalid e))
        (on_error (validate_observation runtime.codec observation)
          (λ e. named_none DecisionKind.unresolved (Reason.observation_invalid e))
          (if not (state.instance_id == request.instance_id)
            then some (named_none DecisionKind.unresolved Reason.instance_mismatch)
            else if not (identity_eq state.program (program_identity runtime.program))
            then some (named_none DecisionKind.unresolved Reason.program_stale)
            else if is_marked runtime.program state.mode
                && not (is_some state.recovery)
                && request.requested == ""
            then some (named_none DecisionKind.marked Reason.marked_state_established)
            else none))

  -- the `finish` of `resolve`
  abbrev finish :
      ControlState
      → Observation
      → ResolveRequest
      → DecisionTrace
      → Option Prescription
      → Decision
      → Resolution
  finish state observation request trace prescription decision = record {
    state = state;
    observation = observation;
    decision = decision;
    prescription = prescription;
    trace =
        if request.trace then some (record trace { decision = trace_decision decision }) else none;
  }

  -- what follows the decision that prescribes a transition
  prescribe :
      ControlState
      → Observation
      → ResolveRequest
      → DecisionTrace
      → AuthorityProjection
      → Decision
      → Transition
      → Result Resolution
  unfolding required_capabilities
  prescribe state observation request trace authority decision top =
      Error.◌>>=◌ (required_capabilities runtime.ports top) λ required.
        Error.◌>>=◌
          (new_prescription runtime.codec state observation top
            (objective_for runtime.codec state request.objective top).0 authority required)
          λ prescription. ok (finish state observation request trace (some prescription) decision)

  -- the end of `resolve`, by whether the relation prescribed a transition
  conclude :
      ControlState
      → Observation
      → ResolveRequest
      → DecisionTrace
      → AuthorityProjection
      → Decision
      → Transition
      → Bool
      → Result Resolution
  unfolding prescribe
  conclude state observation request trace authority decision top true =
      prescribe state observation request trace authority decision top
  conclude state observation request trace authority decision top false =
      ok (finish state observation request trace none decision)

  -- `resolve` from the loop on
  relate_candidates :
      ControlState
      → Observation
      → ResolveRequest
      → DecisionTrace
      → AuthorityProjection
      → Exec W Resolution
  unfolding conclude transition_at
  relate_candidates state observation request trace authority = do
    (traces, survivors, candidates) ←
        consider_all runtime state observation request runtime.program.transitions
    let input : RelationInput = record {
      requested = request.requested;
      marked = false;
      no_candidate = DecisionKind.unset;
      candidates = candidates;
      available = authority.capabilities;
    }
    let related = relate input
    let traced : DecisionTrace = record trace {
      authority_fingerprint = authority.fingerprint;
      candidates = merge_relation_traces traces related.1;
    }
    lift (
        conclude state observation request traced authority related.0
          (transition_at survivors related.0.transition) (is_prescribed related.0.kind))

  -- `resolve` from the authority on
  with_authority :
      ControlState
      → Observation
      → ResolveRequest
      → DecisionTrace
      → Result AuthorityProjection
      → Exec W Resolution
  unfolding relate_candidates
  with_authority state observation request trace (err e) = pure (
      finish state observation request trace none
        (named_none DecisionKind.refused (Reason.authority_invalid e)))
  with_authority state observation request trace (ok authority) =
      relate_candidates state observation request trace authority

  after_precheck :
      ControlState
      → Observation
      → ResolveRequest
      → DecisionTrace
      → Option Decision
      → Exec W Resolution
  unfolding with_authority
  after_precheck state observation request trace (some decision) =
      pure (finish state observation request trace none decision)
  after_precheck state observation request trace none = do
    now ← clock
    with_authority state observation request trace (projection runtime.codec now request.authority)

  -- Runtime.resolve
  unfoldable pub resolve : ControlState → Observation → ResolveRequest → Exec W Resolution
  unfolding after_precheck precheck new_decision_trace
  resolve state observation request =
      let trace = new_decision_trace state observation request (program_identity runtime.program) in
      after_precheck state observation request
        (record trace { marked = is_marked runtime.program state.mode })
        (precheck state observation request)

  -- Runtime.Resolve
  unfoldable pub resolve_request : ResolveRequest → Exec W Resolution
  unfolding resolve
  resolve_request request = do
    state ← runtime.ports.load request.instance_id
    observation ← runtime.ports.observe request.instance_id
    resolve state observation request
