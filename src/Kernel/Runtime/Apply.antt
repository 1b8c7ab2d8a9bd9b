-- ===== src/Kernel/Runtime/Apply.antt =====
-- Runtime.Apply and NewRuntime, boatstack/kernel/runtime.go. `UTC` changes how a time is shown, and
-- not which it is.
pub mod Quiet
pub mod Admission
pub mod Outcome
pub mod Safety
use Prim.Native.String.{◌++◌}
use boatstack.Base.{
  ℕ, String, Bool, true, false, not, ◌&&◌, ◌||◌, ◌==◌, Option, none, some, List, [], ◌∷◌,
  if◌then◌else◌,
}
use boatstack.Base.Sort.{sort}
use boatstack.Kernel.Types.{
  Objective, ObjectiveBinding, ControlState, RecoveryState, Capability, Transition, Observation,
  Prescription, Receipt, EffectFact, AuthorityProjection, ObjectiveMutation, next_u64,
  receipt_schema_version,
}
use boatstack.Kernel.Trace.{Decision}
use boatstack.Kernel.Error.{
  Error, StaleReason, RecoveryReason, Result, Check, ok, err, stale, recovery_required,
  apply_refused, attempt_invalid, attempt_did_not_begin,
}
use boatstack.Kernel.Error
use boatstack.Kernel.Codec.{content_hash}
use boatstack.Kernel.Exec.{Exec, lift, pure, wrapping, finally, ◌>>=◌, ◌>>◌}
use boatstack.Kernel.Authority.{projection}
use boatstack.Kernel.State.{validate_state}
use boatstack.Kernel.Receipt.{validate_effects, validate_receipt, fact_before}
use boatstack.Kernel.Program.Compile.{find_transition, validate_program}
use boatstack.Kernel.Relation.{is_prescribed}
use boatstack.Kernel.Ports.{Evaluation, Operation, Runtime, ApplyRequest}
use boatstack.Kernel.Prescription.{validate_current, objective_for, bind_optional}
use boatstack.Kernel.Runtime.{Resolution, required_capabilities}
use boatstack.Kernel.Runtime.Resolve.{resolve, clock}

-- the state that `BeginEffect` persists: an unresolved attempt, or the recovery that goes on
unfoldable pub attempt_state : ControlState → Prescription → ControlState
attempt_state state p = record state {
  revision = next_u64 state.revision;
  recovery = elim state.recovery [
    | none ↦ some (record {
      prescription_id = p.id;
      transition_id = p.transition_id;
      reason = "effect attempt began; outcome is unresolved";
    })
    | some r ↦ some r
  ];
}

-- what `Apply` reads first
pub record Reading : Type 0 where
  pub state : ControlState
  pub observation : Observation
  pub authority : AuthorityProjection

-- what `Apply` holds when it begins the effect
pub record Attempt : Type 0 where
  pub state : ControlState
  pub observation : Observation
  pub authority : AuthorityProjection
  pub prescription : Prescription
  pub transition : Transition
  pub objective : Option Objective
  pub required : List Capability

abbrev pub attempted : Attempt → ControlState
attempted a = attempt_state a.state a.prescription

-- what the operator is called with
abbrev pub operation_of : String → Attempt → Operation
operation_of instance a = record {
  instance_id = instance;
  transition = a.transition;
  observation = a.observation;
  objective = a.objective;
  capabilities = a.required;
}

-- what the verification is called with
abbrev pub evaluation_of : Attempt → Evaluation
evaluation_of a = record {
  state = a.state;
  observation = a.observation;
  objective = a.objective;
  transition = a.transition;
}

module _ {W : Type 0} (runtime : Runtime W) where
  -- the binding of the target state
  unfoldable pub target_binding :
      ObjectiveMutation
      → Option Objective
      → Option ObjectiveBinding
      → Result (Option ObjectiveBinding)
  target_binding ObjectiveMutation.bind_objective objective binding =
      Error.◌>>=◌ (bind_optional runtime.codec objective) λ b. ok (some b)
  target_binding ObjectiveMutation.clear_objective objective binding = ok none
  target_binding _ objective binding = ok binding

  -- the target state
  unfoldable pub target_state : Attempt → Option ObjectiveBinding → ControlState
  target_state a binding = record (attempted a) {
    mode = a.transition.target_mode;
    revision = next_u64 (attempted a).revision;
    objective_binding = binding;
    recovery = none;
  }

  -- the receipt before it has its identity
  unfoldable pub draft_receipt :
      Attempt → ControlState → List EffectFact → Observation → ℕ → Receipt
  draft_receipt a target facts result now = record {
    schema_version = receipt_schema_version;
    id = "";
    instance_id = a.state.instance_id;
    prescription_id = a.prescription.id;
    program = a.state.program;
    transition_id = a.transition.id;
    prior_state_revision = a.state.revision;
    attempt_state_revision = (attempted a).revision;
    result_state_revision = target.revision;
    objective_binding = target.objective_binding;
    authority_fingerprint = a.authority.fingerprint;
    capabilities = a.required;
    effects = facts;
    prior_observation = a.observation.fingerprint;
    result_observation = result.fingerprint;
    verification = "satisfied";
    committed_at = now;
  }

  -- the end of `Apply`
  unfoldable pub commit_receipt : Attempt → ControlState → Receipt → Exec W Receipt
  commit_receipt a target receipt = do
    wrapping (λ e. recovery_required (RecoveryReason.commit_failed e))
        (runtime.ports.commit_transition (attempted a).revision target receipt)
    pure receipt

  -- `Apply` from the verified effect on: the target state and the receipt are committed
  unfoldable pub settle : Attempt → List EffectFact → Observation → Exec W Receipt
  unfolding target_state draft_receipt content_hash
  settle a facts result = do
    binding ←
        lift (target_binding a.transition.objective_mutation a.objective a.state.objective_binding)
    let target = target_state a binding
    now ← clock runtime
    let draft = draft_receipt a target facts result now
    id ← lift (content_hash runtime.codec (runtime.codec.marshal_receipt draft))
    let receipt : Receipt = record draft { id = "rcp-" ++ id }
    wrapping (λ e. recovery_required (RecoveryReason.receipt_invalid e))
        (lift (validate_receipt runtime.codec receipt))
    commit_receipt a target receipt

  -- `Apply` from the begun effect on
  unfoldable pub carry_out : String → Attempt → Exec W Receipt
  unfolding settle
  carry_out instance a = do
    effect ←
        wrapping (λ e. recovery_required (RecoveryReason.operator_outcome_unknown e))
          (runtime.ports.execute (operation_of instance a))
    wrapping (λ e. recovery_required (RecoveryReason.effects_invalid e))
        (lift (validate_effects a.transition effect))
    let facts = sort fact_before effect
    result ←
        wrapping (λ e. recovery_required (RecoveryReason.observation_failed e))
          (runtime.ports.observe instance)
    wrapping (λ e. recovery_required (RecoveryReason.verification_failed e))
        (runtime.ports.verify (evaluation_of a) facts result)
    settle a facts result

  -- the resolved prescription, which has to be the one that is applied
  same_prescription : Prescription → Resolution → Check
  same_prescription p resolution = elim resolution.prescription [
    | none ↦ err (apply_refused resolution.decision.reason)
    | some fresh ↦
        if not (is_prescribed resolution.decision.kind)
        then err (apply_refused resolution.decision.reason)
        else if not (p.id == fresh.id)
        then err (stale StaleReason.transition_changed)
        else ok tt
  ]

  -- the head of `Apply`: what it reads under the lock, if the prescription is current
  unfoldable pub read_current : ApplyRequest → Exec W Reading
  read_current request = do
    state ← runtime.ports.load request.instance_id
    observation ← runtime.ports.observe request.instance_id
    now ← clock runtime
    authority ← lift (projection runtime.codec now request.authority)
    lift (validate_current runtime.codec request.prescription state observation authority)
    pure (record { state = state; observation = observation; authority = authority })

  abbrev attempt_of : ApplyRequest → Reading → Transition → List Capability → Attempt
  attempt_of request reading transition required = record {
    state = reading.state;
    observation = reading.observation;
    authority = reading.authority;
    prescription = request.prescription;
    transition = transition;
    objective = (objective_for runtime.codec reading.state request.objective transition).0;
    required = required;
  }

  -- the rest of `Apply` up to the begun effect
  unfoldable pub admit : ApplyRequest → Reading → Exec W Attempt
  unfolding same_prescription required_capabilities
  admit request reading = do
    resolution ← resolve runtime reading.state reading.observation request.resolve_request
    lift (same_prescription request.prescription resolution)
    transition ← lift (
        Error.from_option (stale StaleReason.transition_gone)
          (find_transition runtime.program request.prescription.transition_id))
    required ← lift (required_capabilities runtime.ports transition)
    let attempt = attempt_of request reading transition required
    wrapping attempt_invalid (lift (validate_state (attempted attempt)))
    pure attempt

  -- `Apply` up to the begun effect: every check comes before the first write
  unfoldable pub prepare_attempt : ApplyRequest → Exec W Attempt
  unfolding read_current admit
  prepare_attempt request = do reading ← read_current request; admit request reading

  apply_locked : ApplyRequest → Exec W Receipt
  unfolding prepare_attempt carry_out
  apply_locked request = do
    a ← prepare_attempt request
    wrapping attempt_did_not_begin (runtime.ports.begin_effect a.state.revision (attempted a))
    carry_out request.instance_id a

  -- Runtime.Apply
  unfoldable pub apply : ApplyRequest → Exec W Receipt
  unfolding apply_locked
  apply request = do
    runtime.ports.acquire request.instance_id
    finally (runtime.ports.unlock request.instance_id) (apply_locked request)

-- the loop of NewRuntime over the transitions
check_capabilities : {W : Type 0} → Runtime W → List Transition → Check
unfolding required_capabilities
check_capabilities runtime [] = ok tt
check_capabilities runtime (t ∷ ts) =
    Error.◌>>=◌ (required_capabilities runtime.ports t) λ _. check_capabilities runtime ts

-- NewRuntime; its test that no port is nil is the type of the ports
unfoldable pub new_runtime : {W : Type 0} → Runtime W → Result (Runtime W)
unfolding check_capabilities
new_runtime runtime =
    Error.◌>>=◌ (validate_program runtime.codec runtime.program)
      λ _. Error.◌>>=◌ (check_capabilities runtime runtime.program.transitions) λ _. ok runtime

-- IsStale
unfoldable pub is_stale : Error → Bool
is_stale (stale _) = true
is_stale (attempt_invalid e) = is_stale e
is_stale (attempt_did_not_begin e) = is_stale e
is_stale (Error.in_transition _ e) = is_stale e
is_stale _ = false

-- IsRecoveryRequired
unfoldable pub is_recovery_required : Error → Bool
is_recovery_required (recovery_required _) = true
is_recovery_required (attempt_invalid e) = is_recovery_required e
is_recovery_required (attempt_did_not_begin e) = is_recovery_required e
is_recovery_required (Error.in_transition _ e) = is_recovery_required e
is_recovery_required _ = false
