-- ===== src/Kernel/Runtime/Consider.antt =====
-- The loop of Runtime.resolve over the transitions, boatstack/kernel/runtime.go.
use boatstack.Base.{
  String, true, not, ◌&&◌, ◌==◌, Option, none, some, List, [], ◌∷◌, contains, is_empty,
  if◌then◌else◌,
}
use boatstack.Base.Int.{ℤ}
use boatstack.Kernel.Types.{Objective, ControlState, RecoveryState, Transition, Observation}
use boatstack.Kernel.Trace.{
  ObjectiveReason, TraceReason, CandidateDisposition, CandidateTrace, EvaluationTrace,
}
use boatstack.Kernel.Exec.{Exec, lift, pure, ◌>>=◌}
use boatstack.Kernel.Relation.{RelationCandidate}
use boatstack.Kernel.Ports.{Evaluation, Runtime, ResolveRequest}
use boatstack.Kernel.Prescription.{objective_for}
use boatstack.Kernel.Runtime.{
  required_capabilities, bounded_trace_reason, fresh_trace, holds, fails_for,
}

-- why the recovery state, or its absence, rejects a transition
unfoldable pub recovery_rejects : Option RecoveryState → Transition → Option TraceReason
recovery_rejects (some r) t =
    if contains t.recovers r.transition_id
    then none
    else some (TraceReason.does_not_recover r.transition_id)
recovery_rejects none t =
    if is_empty t.recovers then none else some TraceReason.needs_active_recovery

-- what a round of the loop over the transitions finds: a trace, and a candidate if it survives
abbrev pub Considered : Type 0
Considered = CandidateTrace × Option RelationCandidate

-- `append`, if there is something to append
abbrev pub with_candidate :
    Option RelationCandidate → List RelationCandidate → List RelationCandidate
with_candidate none cs = cs
with_candidate (some c) cs = c ∷ cs

-- `transitions[transition.ID] = transition`, if the transition survives
abbrev pub with_survivor :
    Option RelationCandidate → Transition → List (String × Transition) → List (String × Transition)
with_survivor none t survivors = survivors
with_survivor (some _) t survivors = (t.id, t) ∷ survivors

module _ {W : Type 0} (runtime : Runtime W) where
  -- a transition with its objective: the domain's answer, and the capabilities required
  unfoldable pub consider_domain :
      ControlState
      → Observation
      → Transition
      → CandidateTrace
      → Option Objective
      → Exec W Considered
  unfolding required_capabilities bounded_trace_reason
  consider_domain state observation t trace objective = do
    let evaluation : Evaluation = record {
      state = state;
      observation = observation;
      objective = objective;
      transition = t;
    }
    (allowed, reason) ← runtime.ports.admissible evaluation
    let evaluated : EvaluationTrace = record {
      evaluated = true;
      satisfied = allowed;
      reason = TraceReason.domain_says (bounded_trace_reason reason);
    }
    let judged : CandidateTrace = record trace { domain_admissible = evaluated }
    if not allowed
        then pure (record judged { disposition = CandidateDisposition.domain_rejected }, none)
        else do
          required ← lift (required_capabilities runtime.ports t)
          pure (
            record judged { selectable = true; survived = true },
            some (record {
              id = t.id;
              rank = ℤ.pos 0;
              priority = t.priority;
              selectable = true;
              required_all = required;
              required_any = [];
            }),
          )

  unfoldable pub consider_objective :
      ControlState
      → Observation
      → Transition
      → CandidateTrace
      → Option Objective × Option ObjectiveReason
      → Exec W Considered
  unfolding consider_domain
  consider_objective state observation t trace (objective, some reason) = pure (
    record trace {
      objective_scope = fails_for (TraceReason.objective_rejected reason);
      objective_mutation = fails_for (TraceReason.objective_rejected reason);
      disposition = CandidateDisposition.disposition_objective_rejected;
    },
    none,
  )
  consider_objective state observation t trace (objective, none) =
      consider_domain state observation t
        (record trace {
          objective_scope = holds TraceReason.scope_is_satisfied;
          objective_mutation = holds TraceReason.mutation_is_admissible;
        })
        objective

  unfoldable pub consider_recovery :
      ControlState
      → Observation
      → ResolveRequest
      → Transition
      → CandidateTrace
      → Option TraceReason
      → Exec W Considered
  unfolding consider_objective
  consider_recovery state observation request t trace (some reason) = pure (
    record trace {
      recovery_compatible = fails_for reason;
      disposition = CandidateDisposition.recovery_rejected;
    },
    none,
  )
  consider_recovery state observation request t trace none =
      consider_objective state observation t
        (record trace { recovery_compatible = holds TraceReason.recovery_is_compatible })
        (objective_for runtime.codec state request.objective t)

  -- the body of the loop over the transitions
  unfoldable pub consider :
      ControlState → Observation → ResolveRequest → Transition → Exec W Considered
  unfolding consider_recovery recovery_rejects
  consider state observation request t =
      let trace = fresh_trace t in
      if not (request.requested == "") && not (t.id == request.requested)
      then pure (record trace { disposition = CandidateDisposition.irrelevant_to_request }, none)
      else if not (contains t.source_modes state.mode)
      then pure (
        record trace {
          source_mode = fails_for (TraceReason.not_a_source_mode state.mode);
          disposition = CandidateDisposition.source_mode_rejected;
        },
        none,
      )
      else consider_recovery state observation request t
          (record trace { source_mode = holds TraceReason.is_a_source_mode })
          (recovery_rejects state.recovery t)

  -- the loop over the transitions: the traces, the map of the survivors, and the candidates
  unfoldable pub consider_all :
      ControlState
      → Observation
      → ResolveRequest
      → List Transition
      → Exec W (List CandidateTrace × List (String × Transition) × List RelationCandidate)
  unfolding consider
  consider_all state observation request [] = pure ([], [], [])
  consider_all state observation request (t ∷ ts) = do
    (trace, candidate) ← consider state observation request t
    (traces, survivors, candidates) ← consider_all state observation request ts
    pure (trace ∷ traces, with_survivor candidate t survivors, with_candidate candidate candidates)
