-- ===== src/Delivery/Model/Observation.antt =====
-- The observation and the snapshot of boatstack/internal/softwaredelivery/model/state.go. A map is
-- the list of its entries, with one entry for each key.
use boatstack.Base.{ℕ, String, Bool, ◌&&◌, ◌==◌, List, map}
use boatstack.Base.Int.{ℤ}
use boatstack.Delivery.Model.Fact.{Fact, is_known, zero_evidence_times}
use boatstack.Delivery.Model.ProgramState.{ProgramState}
use boatstack.Delivery.Model.Phase.{ProtocolPhase}
use boatstack.Delivery.Model.Engagement.{EngagementState}
use boatstack.Delivery.Model.DeliveryState.{DeliveryState}
use boatstack.Delivery.Model.Workspace.{WorkspaceState}
use boatstack.Delivery.Model.WorkPackage.{WorkPackageState}
use boatstack.Delivery.Model.Plan.{PlanState}
use boatstack.Delivery.Model.Configuration
use boatstack.Delivery.Model.Configuration.{ConfigurationState}
use boatstack.Delivery.Model.RuntimeState.{RuntimeState}
use boatstack.Delivery.Model.Publication.{PublicationState}
use boatstack.Delivery.Model.Verification.{VerificationState}
use boatstack.Delivery.Model.Recovery.{RecoveryState}
use boatstack.Delivery.Model.TransactionState.{TransactionState}
use boatstack.Delivery.Model.Terminal.{TerminalStatus}
use boatstack.Delivery.Model.Contexts.{ConfigurationPolicy, RecoveryContext, TransactionContext}
use boatstack.Delivery.Model.Objective.{Objective}
use boatstack.Delivery.Model.Invocation.{InvocationContext}

pub record Observation : Type 0 where
  pub schema_version : ℤ  -- int
  pub state_revision : ℕ  -- uint64
  pub program_fingerprint : String
  pub recorded_program_fingerprint : String
  pub invocation : InvocationContext
  pub program : Fact ProgramState
  pub phase : Fact ProtocolPhase
  pub engagement : Fact EngagementState
  pub delivery : Fact DeliveryState
  pub workspace : Fact WorkspaceState
  pub work_package : Fact WorkPackageState
  pub plan : Fact PlanState
  pub configuration : Fact ConfigurationState
  pub configuration_policy : Fact ConfigurationPolicy
  pub runtime : Fact RuntimeState
  pub publication : Fact PublicationState
  pub verification : Fact VerificationState
  pub recovery : Fact RecoveryState
  pub transaction : Fact TransactionState
  pub recovery_info : Fact RecoveryContext
  pub transaction_info : Fact TransactionContext
  pub terminal : Fact TerminalStatus
  pub objective : Fact Objective
  pub program_facts : List (String × Fact String)
  pub extension_facts : List (String × Fact String)
  pub observed_at : ℕ  -- time.Time

pub record Snapshot : Type 0 where
  pub observation : Observation
  pub open observation use *
  pub fingerprint : String

-- Observation.ExecutableRuntimeAdmitted
unfoldable pub executable_runtime_admitted : Observation → String → Bool
executable_runtime_admitted o program_fingerprint =
    o.recorded_program_fingerprint == program_fingerprint
    && is_known o.configuration
    && o.configuration.value == Configuration.verified

-- the loops of `observationFingerprint` over the two maps
abbrev pub zero_fact_times : List (String × Fact String) → List (String × Fact String)
zero_fact_times = map (λ entry. (entry.0, zero_evidence_times entry.1))

-- what `observationFingerprint` encodes: the observation without any time
abbrev pub without_times : Observation → Observation
without_times o = record {
  schema_version = o.schema_version;
  state_revision = o.state_revision;
  program_fingerprint = o.program_fingerprint;
  recorded_program_fingerprint = o.recorded_program_fingerprint;
  invocation = o.invocation;
  program = zero_evidence_times o.program;
  phase = zero_evidence_times o.phase;
  engagement = zero_evidence_times o.engagement;
  delivery = zero_evidence_times o.delivery;
  workspace = zero_evidence_times o.workspace;
  work_package = zero_evidence_times o.work_package;
  plan = zero_evidence_times o.plan;
  configuration = zero_evidence_times o.configuration;
  configuration_policy = zero_evidence_times o.configuration_policy;
  runtime = zero_evidence_times o.runtime;
  publication = zero_evidence_times o.publication;
  verification = zero_evidence_times o.verification;
  recovery = zero_evidence_times o.recovery;
  transaction = zero_evidence_times o.transaction;
  recovery_info = zero_evidence_times o.recovery_info;
  transaction_info = zero_evidence_times o.transaction_info;
  terminal = zero_evidence_times o.terminal;
  objective = zero_evidence_times o.objective;
  program_facts = zero_fact_times o.program_facts;
  extension_facts = zero_fact_times o.extension_facts;
  observed_at = 0;
}

-- What `observationFingerprint` leaves behind: it writes its zeroed facts back through the two maps,
-- which the observation shares with the copy that it works on.
abbrev pub after_fingerprint : Observation → Observation
after_fingerprint o = record o {
  program_facts = zero_fact_times o.program_facts;
  extension_facts = zero_fact_times o.extension_facts;
}
