-- ===== src/Kernel/Examples.antt =====
-- A small control program, and ports over a world that holds one state and the last receipt.
use boatstack.Base.{String, true, none, some, [], ◌∷◌, eqb, if◌then◌else◌}
use boatstack.Base.Int.{ℤ}
use boatstack.Kernel.Types.{
  ControlState, AuthorityReceipt, EffectFact, Transition, Program, Observation, ObjectiveScope,
  ObjectiveMutation, Prescription,
}
use boatstack.Kernel.Codec.{Codec}
use boatstack.Kernel.Error.{Error, ok, err}
use boatstack.Kernel.Ports.{Ports, Runtime, ResolveRequest, ApplyRequest}

abbrev pub digest : String
digest = "0123456789abcdef0123456789abcdef0123456789abcdef0123456789abcdef"

-- An encoder that writes nothing, and a digest that is always the same.
abbrev pub codec : Codec
codec = record {
  json_valid = λ s. true;
  sha256_hex = λ s. digest;
  marshal_objective = λ id n r. some "";
  marshal_value = λ v. some "";
  marshal_receipts = λ rs. some "";
  marshal_binding = λ b. some "";
  marshal_program = λ p. some "";
  marshal_prescription = λ p. some "";
  marshal_receipt = λ r. some "";
}

abbrev pub build : Transition
build = record {
  id = "work/build";
  source_modes = "idle" ∷ [];
  target_mode = "built";
  objective_scope = ObjectiveScope.objective_none;
  objective_mutation = ObjectiveMutation.preserve_objective;
  required_capabilities = "repository.write" ∷ [];
  owned_facets = "files" ∷ [];
  operation = "build";
  priority = ℤ.pos 2;
  recovers = [];
}

abbrev pub repair : Transition
repair = record build { id = "work/repair"; operation = "repair"; recovers = "work/build" ∷ [] }

abbrev pub program : Program
program = record {
  schema_version = ℤ.pos 1;
  id = "example";
  version = "1";
  runtime_compatibility = "1";
  domain_contract_fingerprint = "";
  initial_mode = "idle";
  marked_modes = "built" ∷ [];
  transitions = build ∷ repair ∷ [];
  fingerprint = digest;
  by_id = some (("work/repair", repair) ∷ ("work/build", build) ∷ []);
}

abbrev pub idle : ControlState
idle = record {
  instance_id = "one";
  program = record { id = "example"; version = "1"; fingerprint = digest };
  objective_binding = none;
  mode = "idle";
  revision = 7;
  recovery = none;
}

abbrev pub World : Type 0
World = ControlState

abbrev pub observation : Observation
observation = record { fingerprint = digest; value = "{}" }

abbrev pub fact : EffectFact
fact = record { facet = "files"; operation = "build"; fingerprint = "f" }

-- The store replaces the state where the revision is the expected one.
abbrev pub ports : Ports World
ports = record {
  observe = λ id w. (ok observation, w);
  admissible = λ e w. (ok (true, ""), w);
  verify = λ e facts o w. (ok tt, w);
  execute = λ op w. (ok (fact ∷ []), w);
  required_by_mechanism = λ t. ok [];
  load = λ id w. (ok w, w);
  begin_effect =
      λ n s w. if eqb w.revision n then (ok tt, s) else (err (Error.port_failed "revision"), w);
  commit_transition =
      λ n s r w. if eqb w.revision n then (ok tt, s) else (err (Error.port_failed "revision"), w);
  acquire = λ id w. (ok tt, w);
  unlock = λ id w. w;
  now = λ w. (100, w);
}

abbrev pub runtime : Runtime World
runtime = record { program = program; codec = codec; ports = ports }

abbrev pub grant : AuthorityReceipt
grant = record {
  id = "grant";
  subject = "someone";
  fingerprint = "g";
  capabilities = "repository.write" ∷ [];
  issued_at = 50;
  expires_at = 0;
}

abbrev pub resolve_build : ResolveRequest
resolve_build = record {
  instance_id = "one";
  objective = none;
  authority = grant ∷ [];
  requested = "";
  trace = true;
}

abbrev pub prescription : Prescription
prescription = record {
  schema_version = ℤ.pos 2;
  id = "prx-0123456789abcdef0123456789abcdef0123456789abcdef0123456789abcdef";
  transition_id = "work/build";
  freshness = record {
    expected_instance_id = "one";
    expected_state_revision = 7;
    expected_program_fingerprint = digest;
    expected_snapshot_fingerprint = digest;
    expected_objective_binding_fingerprint = digest;
    authority_fingerprint = digest;
  };
  expected_objective_binding = none;
  requested_objective_binding = none;
  required_capabilities = "repository.write" ∷ [];
}

abbrev pub apply_build : ApplyRequest
apply_build = record { resolve_request = resolve_build; prescription = prescription }
