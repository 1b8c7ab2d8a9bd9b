-- ===== src/Kernel/Types.antt =====
-- The data of boatstack/kernel: types.go, program.go, freshness.go and runtime.go. A nil pointer is
-- `none`, a string type with named values is a data type that keeps its other values, `time.Time`
-- is a number of nanoseconds with 0 for the zero time, and `json.RawMessage` is its text.
use boatstack.Base.{ℕ, String, Bool, Option, List, ◌+◌, ◌%◌, ◌^◌, ◌==◌, eqb, ◌&&◌}
use boatstack.Base.Int.{ℤ}

pub record Objective : Type 0 where
  pub id : String
  pub revision : ℕ  -- uint64
  pub fingerprint : String
  pub reference : String

pub record ObjectiveBinding : Type 0 where
  pub objective_id : String
  pub objective_revision : ℕ  -- uint64
  pub objective_fingerprint : String

pub record ProgramIdentity : Type 0 where
  pub id : String
  pub version : String
  pub fingerprint : String

pub record RecoveryState : Type 0 where
  pub prescription_id : String
  pub transition_id : String
  pub reason : String

pub record ControlState : Type 0 where
  pub instance_id : String
  pub program : ProgramIdentity
  pub objective_binding : Option ObjectiveBinding
  pub mode : String
  pub revision : ℕ  -- uint64
  pub recovery : Option RecoveryState

pub data ObjectiveScope : Type 0 where
  objective_none objective_optional_preserve objective_bound_exact : ObjectiveScope
  other_scope : String → ObjectiveScope

pub data ObjectiveMutation : Type 0 where
  preserve_objective bind_objective clear_objective : ObjectiveMutation
  other_mutation : String → ObjectiveMutation

abbrev pub Capability : Type 0
Capability = String

pub record AuthorityReceipt : Type 0 where
  pub id : String
  pub subject : String
  pub fingerprint : String
  pub capabilities : List Capability
  pub issued_at : ℕ
  pub expires_at : ℕ

pub record AuthorityProjection : Type 0 where
  pub fingerprint : String
  pub capabilities : List Capability

pub record EffectFact : Type 0 where
  pub facet : String
  pub operation : String
  pub fingerprint : String

pub record Transition : Type 0 where
  pub id : String
  pub source_modes : List String
  pub target_mode : String
  pub objective_scope : ObjectiveScope
  pub objective_mutation : ObjectiveMutation
  pub required_capabilities : List Capability
  pub owned_facets : List String
  pub operation : String
  pub priority : ℤ  -- int
  pub recovers : List String

-- `by_id` is the unexported map from a transition's identity, `none` before `prepare`.
pub record Program : Type 0 where
  pub schema_version : ℤ  -- int
  pub id : String
  pub version : String
  pub runtime_compatibility : String
  pub domain_contract_fingerprint : String
  pub initial_mode : String
  pub marked_modes : List String
  pub transitions : List Transition
  pub fingerprint : String
  pub by_id : Option (List (String × Transition))

pub record Freshness : Type 0 where
  pub expected_instance_id : String
  pub expected_state_revision : ℕ
  pub expected_program_fingerprint : String
  pub expected_snapshot_fingerprint : String
  pub expected_objective_binding_fingerprint : String
  pub authority_fingerprint : String

pub record Observation : Type 0 where
  pub fingerprint : String
  pub value : String

pub record Prescription : Type 0 where
  pub schema_version : ℤ  -- int
  pub id : String
  pub transition_id : String
  pub freshness : Freshness
  pub expected_objective_binding : Option ObjectiveBinding
  pub requested_objective_binding : Option ObjectiveBinding
  pub required_capabilities : List Capability

pub record Receipt : Type 0 where
  pub schema_version : ℤ  -- int
  pub id : String
  pub instance_id : String
  pub prescription_id : String
  pub program : ProgramIdentity
  pub transition_id : String
  pub prior_state_revision : ℕ  -- uint64
  pub attempt_state_revision : ℕ  -- uint64
  pub result_state_revision : ℕ  -- uint64
  pub objective_binding : Option ObjectiveBinding
  pub authority_fingerprint : String
  pub capabilities : List Capability
  pub effects : List EffectFact
  pub prior_observation : String
  pub result_observation : String
  pub verification : String
  pub committed_at : ℕ

abbrev pub program_schema_version : ℤ
program_schema_version = ℤ.pos 1

abbrev pub prescription_schema_version : ℤ
prescription_schema_version = ℤ.pos 2

abbrev pub receipt_schema_version : ℤ
receipt_schema_version = ℤ.pos 3

-- `x++` on a uint64
abbrev pub next_u64 : ℕ → ℕ
next_u64 n = (n + 1) % 2 ^ 64

-- `*left == *right` on the comparable structs
abbrev pub binding_eq : ObjectiveBinding → ObjectiveBinding → Bool
binding_eq a b =
    a.objective_id == b.objective_id
    && eqb a.objective_revision b.objective_revision
    && a.objective_fingerprint == b.objective_fingerprint

abbrev pub identity_eq : ProgramIdentity → ProgramIdentity → Bool
identity_eq a b = a.id == b.id && a.version == b.version && a.fingerprint == b.fingerprint
