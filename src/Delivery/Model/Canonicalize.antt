-- ===== src/Delivery/Model/Canonicalize.antt =====
-- CanonicalizeForProgram, Canonicalize and the fingerprints of
-- boatstack/internal/softwaredelivery/model/state.go. A range over a map takes the order of the
-- list of its entries.
pub mod Canonical
pub mod Composite
pub mod Facts
pub mod Consistent
use Prim.Native.String.{◌++◌}
use boatstack.Base.{
  ℕ, String, len, Bool, true, false, not, ◌&&◌, ◌||◌, ◌==◌, eqb, Option, some, List, [], ◌∷◌,
  if◌then◌else◌,
}
use boatstack.Base.Int.{ℤ, eqb_ℤ}
use boatstack.Kernel.Error.{
  Check, Result, Error, says, says_of, quoted, counted, ok, err, ◌>>=◌, ◌>>◌, refuse_if, succeeds,
  from_option, marshal_failed,
}
use boatstack.Delivery.Ports.{Library}
use boatstack.Delivery.Model.Fact.{Evidence, Fact, is_known, known, validate_fact}
use boatstack.Delivery.Model.FacetName
use boatstack.Delivery.Model.ProgramState
use boatstack.Delivery.Model.Phase
use boatstack.Delivery.Model.Engagement
use boatstack.Delivery.Model.DeliveryState
use boatstack.Delivery.Model.Workspace
use boatstack.Delivery.Model.WorkPackage
use boatstack.Delivery.Model.Plan
use boatstack.Delivery.Model.Configuration
use boatstack.Delivery.Model.RuntimeState
use boatstack.Delivery.Model.Publication
use boatstack.Delivery.Model.Verification
use boatstack.Delivery.Model.Recovery
use boatstack.Delivery.Model.TransactionState
use boatstack.Delivery.Model.Terminal
use boatstack.Delivery.Model.Contexts.{
  validate_policy, canonical, validate_recovery_context, validate_transaction_context,
}
use boatstack.Delivery.Model.Objective.{validate_objective}
use boatstack.Delivery.Model.Invocation.{validate_invocation}
use boatstack.Delivery.Model.Observation.{Observation, Snapshot, without_times, after_fingerprint}

abbrev pub snapshot_schema_version : ℤ
snapshot_schema_version = ℤ.pos 6

-- The loop over a slice of checks, which returns the first error.
abbrev pub first_error : List Check → Check
first_error [] = ok tt
first_error (check ∷ checks) = check >> first_error checks

-- the end of observationFingerprint, on the observation without times
abbrev pub fingerprint_of : Library → Observation → Result String
fingerprint_of library projection = do
  raw ←
      from_option (says_of "snapshot: canonical encoding: %w" [] marshal_failed)
        (library.marshal_observation projection)
  ok (library.sha256_hex raw)

-- observationFingerprint; the observation afterwards is `after_fingerprint`.
unfoldable pub observation_fingerprint : Library → Observation → Result String
observation_fingerprint library o = fingerprint_of library (without_times o)

-- `fmt.Errorf("...: %w", err)` of the error of a check
abbrev wrap_error : String → Check → Check
wrap_error format (ok _) = ok tt
wrap_error format (err e) = err (says_of format [] e)

-- A fact that is known to have a value.
abbrev pub has_value : Fact String → String → Bool
has_value fact value = is_known fact && fact.value == value

-- one that is known to have another value
abbrev pub has_other_value : Fact String → String → Bool
has_other_value fact value = is_known fact && not (fact.value == value)

-- `time.Unix(0, 0)`, in nanoseconds from the zero time
abbrev unix_epoch : ℕ
unix_epoch = 62135596800000000000

-- `observation.Program = ...` and `observation.WorkPackage = ...`
abbrev pub with_defaults : Observation → Observation
with_defaults o =
    let unbound = known ProgramState.unbound (record {
      source = "control-program:unbound";
      fingerprint = "unbound";
      revision = "";
      observed_at = o.observed_at;
    }) in
    let absent = known WorkPackage.absent (record {
      source = "work-package:absent";
      fingerprint = "absent";
      revision = "";
      observed_at = unix_epoch;
    }) in
    record o {
      program =
          if o.program.status == "" && o.program_fingerprint == "" then unbound else o.program;
      work_package = if o.work_package.status == "" then absent else o.work_package;
    }

-- `checks`
abbrev pub fact_checks : Observation → List Check
fact_checks o =
    validate_fact "program" o.program
    ∷ validate_fact "phase" o.phase
    ∷ validate_fact "engagement" o.engagement
    ∷ validate_fact "delivery" o.delivery
    ∷ validate_fact "workspace" o.workspace
    ∷ validate_fact "work_package" o.work_package
    ∷ validate_fact "plan" o.plan
    ∷ validate_fact "configuration" o.configuration
    ∷ validate_fact "configuration_policy" o.configuration_policy
    ∷ validate_fact "runtime" o.runtime
    ∷ validate_fact "publication" o.publication
    ∷ validate_fact "verification" o.verification
    ∷ validate_fact "recovery" o.recovery
    ∷ validate_fact "transaction" o.transaction
    ∷ validate_fact "recovery_info" o.recovery_info
    ∷ validate_fact "transaction_info" o.transaction_info
    ∷ validate_fact "terminal" o.terminal
    ∷ validate_fact "objective" o.objective
    ∷ []

-- one of `valueChecks`
abbrev value_check : String → Bool → Bool → Check
value_check name known valid =
    refuse_if (known && not valid) (says "snapshot: invalid %s value" (quoted name ∷ []))

-- the check of the phase, and `valueChecks`
abbrev pub value_checks : Observation → List Check
value_checks o =
    refuse_if (is_known o.phase && not (Phase.is_valid o.phase.value))
      (says "snapshot: invalid protocol phase %q" (quoted o.phase.value ∷ []))
    ∷ value_check "program" (is_known o.program) (ProgramState.is_valid o.program.value)
    ∷ value_check "engagement" (is_known o.engagement) (Engagement.is_valid o.engagement.value)
    ∷ value_check "delivery" (is_known o.delivery) (DeliveryState.is_valid o.delivery.value)
    ∷ value_check "workspace" (is_known o.workspace) (Workspace.is_valid o.workspace.value)
    ∷ value_check "work_package" (is_known o.work_package)
        (WorkPackage.is_valid o.work_package.value)
    ∷ value_check "plan" (is_known o.plan) (Plan.is_valid o.plan.value)
    ∷ value_check "configuration" (is_known o.configuration)
        (Configuration.is_valid o.configuration.value)
    ∷ value_check "runtime" (is_known o.runtime) (RuntimeState.is_valid o.runtime.value)
    ∷ value_check "publication" (is_known o.publication) (Publication.is_valid o.publication.value)
    ∷ value_check "verification" (is_known o.verification)
        (Verification.is_valid o.verification.value)
    ∷ value_check "recovery" (is_known o.recovery) (Recovery.is_valid o.recovery.value)
    ∷ value_check "transaction" (is_known o.transaction)
        (TransactionState.is_valid o.transaction.value)
    ∷ value_check "terminal" (is_known o.terminal) (Terminal.is_valid o.terminal.value)
    ∷ []

-- `observation.RecoveryInfo.Status != FactKnown || observation.RecoveryInfo.Value.Validate() != nil`
abbrev pub lacks_recovery_context : Observation → Bool
lacks_recovery_context o =
    not (is_known o.recovery_info)
    || not (succeeds (validate_recovery_context o.recovery_info.value))

abbrev pub lacks_transaction_context : Observation → Bool
lacks_transaction_context o =
    not (is_known o.transaction_info)
    || not (succeeds (validate_transaction_context o.transaction_info.value))

abbrev pub lacks_objective : Observation → Bool
lacks_objective o =
    not (is_known o.objective) || not (succeeds (validate_objective o.objective.value))

-- The checks between facts, from the observed time on.
abbrev pub relation_checks : Observation → List Check
relation_checks o =
    refuse_if (eqb o.observed_at 0) (says "snapshot: observed time is required" [])
    ∷ refuse_if (has_value o.phase Phase.recovery && has_value o.recovery Recovery.none)
        (says "snapshot: recovery phase requires a recovery state" [])
    ∷ refuse_if (has_value o.phase Phase.recovery && lacks_recovery_context o)
        (says "snapshot: recovery phase requires complete recovery context" [])
    ∷ refuse_if (has_other_value o.recovery Recovery.none && lacks_recovery_context o)
        (says "snapshot: non-empty recovery state requires complete recovery context" [])
    ∷ refuse_if (has_other_value o.transaction TransactionState.none && lacks_transaction_context o)
        (says "snapshot: active transaction requires complete transaction context" [])
    ∷ refuse_if
        (has_value o.terminal Terminal.established
          && (has_other_value o.phase Phase.terminal && not (o.phase.value == Phase.abandoned)))
        (says "snapshot: established terminal evidence requires terminal or abandoned phase" [])
    ∷ refuse_if (has_value o.terminal Terminal.established && lacks_objective o)
        (says "snapshot: established terminal evidence requires an exact configured objective" [])
    ∷ refuse_if
        (has_value o.terminal Terminal.established
          && (has_other_value o.delivery DeliveryState.terminal
              && not (o.delivery.value == DeliveryState.discarded)))
        (says "snapshot: established terminal evidence requires terminal or discarded delivery" [])
    ∷ refuse_if
        (has_value o.workspace Workspace.landed && has_other_value o.publication Publication.merged)
        (says "snapshot: landed workspace requires merged publication evidence" [])
    ∷ refuse_if (has_value o.phase Phase.active && has_value o.engagement Engagement.dormant)
        (says "snapshot: active protocol phase cannot have dormant engagement" [])
    ∷ []

-- `if fact.Status == FactKnown { if err := ...; err != nil { return fmt.Errorf(...) } }`
abbrev known_check : {T : Type 0} → String → (T → Check) → Fact T → Check
known_check format validate fact =
    if is_known fact then wrap_error format (validate fact.value) else ok tt

-- the loop over `ProgramFacts` or `ExtensionFacts`
unfoldable pub check_named_facts : String → String → List (String × Fact String) → Check
check_named_facts format name [] = ok tt
check_named_facts format name ((id, fact) ∷ facts) = do
  refuse_if (not (FacetName.is_valid id) || FacetName.is_controlling id)
      (says format (quoted id ∷ []))
  validate_fact (name ++ id) fact
  check_named_facts format name facts

-- The checks of the composite values.
abbrev pub context_checks : Observation → List Check
context_checks o =
    known_check "snapshot: invalid objective fact: %w" validate_objective o.objective
    ∷ check_named_facts "snapshot: invalid control-program fact id %q" "control-program fact "
        o.program_facts
    ∷ check_named_facts "snapshot: invalid extension fact id %q" "extension fact " o.extension_facts
    ∷ known_check "snapshot: invalid configuration policy: %w" validate_policy
        o.configuration_policy
    ∷ known_check "snapshot: invalid recovery context: %w" validate_recovery_context o.recovery_info
    ∷ known_check "snapshot: invalid transaction context: %w" validate_transaction_context
        o.transaction_info
    ∷ []

-- `observation.ConfigurationPolicy.Value = ....Canonical()` of a known one
abbrev pub with_canonical_policy : Observation → Observation
with_canonical_policy o =
    let policy = o.configuration_policy in
    record o {
      configuration_policy = record policy {
        value = if is_known policy then canonical policy.value else policy.value;
      };
    }

-- What Canonicalize checks of the observation with its defaults.
unfoldable pub check_observation : Library → Observation → Check
unfolding check_named_facts
check_observation library o = do
  validate_invocation library.path_is_abs false o.invocation
  first_error (fact_checks o)
  first_error (value_checks o)
  first_error (relation_checks o)
  first_error (context_checks o)

-- The end of Canonicalize: the snapshot of an observation that was checked.
unfoldable pub to_snapshot : Library → Observation → Result Snapshot
unfolding observation_fingerprint
to_snapshot library o = do
  fingerprint ← observation_fingerprint library o
  ok (record { observation = after_fingerprint o; fingerprint = fingerprint })

-- Canonicalize
unfoldable pub canonicalize : Library → Observation → Result Snapshot
unfolding check_observation to_snapshot
canonicalize library o = do
  refuse_if (not (eqb_ℤ o.schema_version snapshot_schema_version)) (
      says "snapshot: schema version %d, want %d"
        (counted o.schema_version ∷ counted snapshot_schema_version ∷ []))
  refuse_if (eqb o.state_revision 0) (says "snapshot: durable state revision is required" [])
  refuse_if (not (o.program_fingerprint == "") && not (eqb (len o.program_fingerprint) 64))
      (says "snapshot: invalid program fingerprint" [])
  check_observation library (with_defaults o)
  to_snapshot library (with_canonical_policy (with_defaults o))

-- CanonicalizeForProgram
unfoldable pub canonicalize_for_program : Library → Observation → String → Result Snapshot
unfolding canonicalize
canonicalize_for_program library o program_fingerprint =
    let recorded = o.recorded_program_fingerprint in
    let state =
      if not (recorded == "")
      then (if recorded == program_fingerprint then ProgramState.current else ProgramState.drift)
      else ProgramState.unbound in
    refuse_if (not (eqb (len program_fingerprint) 64))
      (says "snapshot: invalid compiled program fingerprint" [])
    >> canonicalize library (record o {
      program_fingerprint = program_fingerprint;
      program = known state (record {
        source = "compiled-control-program";
        fingerprint = program_fingerprint;
        revision = "";
        observed_at = o.observed_at;
      });
    })

abbrev foreground_work_context_identity : String
foreground_work_context_identity = "foreground-work-context"

-- `projection` of ForegroundWorkContextFingerprint
abbrev pub foreground_projection : Observation → Observation
foreground_projection o = record o {
  invocation = record o.invocation {
    controller_id = foreground_work_context_identity;
    host = foreground_work_context_identity;
    correlation = foreground_work_context_identity;
    runtime_path = "";
  };
}

-- ForegroundWorkContextFingerprint
unfoldable pub foreground_work_context_fingerprint : Library → Snapshot → Result String
unfolding observation_fingerprint
foreground_work_context_fingerprint library s =
    observation_fingerprint library (foreground_projection s.observation)
