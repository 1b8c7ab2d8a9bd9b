-- ===== src/Delivery/Examples.antt =====
-- A small delivery program, and an observation of a repository that it controls.
use boatstack.Base.{String, true, false, ◌==◌, none, some, List, [], ◌∷◌}
use text.Mathlib.Text.{starts_with}
use boatstack.Base.Int.{ℤ}
use boatstack.Kernel.Types.{ObjectiveScope}
use boatstack.Delivery.Ports.{Library}
use boatstack.Delivery.Model.Fact.{Evidence, absent, known}
use boatstack.Delivery.Model.Contexts.{ConfigurationPolicy, RecoveryContext, TransactionContext}
use boatstack.Delivery.Model.Objective.{Objective}
use boatstack.Delivery.Model.Observation.{Observation, Snapshot}
use boatstack.Delivery.Catalog.Work.{WorkContract, WorkOutput}
use boatstack.Delivery.Catalog.Transition.{
  FacetCondition, InterruptionContract, PolicyContract, StateEffect, Transition,
}
use boatstack.Delivery.Catalog.ObjectiveContract.{Extension, ObjectiveContract, ObjectiveContracts}
use boatstack.Delivery.Catalog.Registry.{Registry}
use boatstack.Delivery.Supervisor.Resolve.{Supervisor, Request}
use boatstack.Delivery.Supervisor.Guard.{CommandIntent}
use boatstack.Delivery.Catalog.Authority.{AuthoritySet}

abbrev pub digest : String
digest = "0123456789abcdef0123456789abcdef0123456789abcdef0123456789abcdef"

abbrev pub authorize_pattern : String
authorize_pattern = "(?i)\\bboatstack(?:-helper)?\\s+flow\\s+authorize\\b"

abbrev pub library : Library
library = record {
  marshal_observation = λ o. some "observation";
  marshal_work = λ w. some "work";
  sha256_hex = λ text. digest;
  path_is_abs = λ path. starts_with path "/";
  path_clean = λ path. path;
  trim_space = λ text. text;
  fields = λ text. text ∷ [];
  match_string = λ pattern text. pattern == authorize_pattern;
}

abbrev pub seen : Evidence
seen = record { source = "state"; fingerprint = "f"; revision = "r1"; observed_at = 7 }

abbrev pub objective : Objective
objective = record {
  id = "objective-1";
  target_id = "approved-plan";
  trusted_class = "";
  delivery_id = "delivery-1";
  evidence_fingerprint = "";
  frontier_is_stop = false;
}

abbrev policy : ConfigurationPolicy
policy = record {
  plan_approval = "human-or-autonomy";
  independent_review_for_high_risk = false;
  high_risk_change = false;
  visual_evidence = "optional";
  external_effect_authority = "human-or-autonomy-plus-provider";
  hosts = "web" ∷ "cli" ∷ [];
}

abbrev no_recovery : RecoveryContext
no_recovery = record {
  transaction_id = "";
  cause = "";
  source_phase = "";
  permitted = [];
  budget_remaining = ℤ.pos 0;
  resumption = "";
}

abbrev no_transaction : TransactionContext
no_transaction = record {
  id = "";
  transition_id = "";
  status = "";
  resource_digests = [];
  external_possible = false;
}

abbrev pub observation : Observation
observation = record {
  schema_version = ℤ.pos 6;
  state_revision = 3;
  program_fingerprint = digest;
  recorded_program_fingerprint = digest;
  invocation = record {
    repository_id = "repository";
    git_common_id = "common";
    worktree_id = "";
    ref = "";
    controller_id = "controller";
    invoking_path = "/repository";
    runtime_version = "";
    runtime_path = "";
    runtime_fingerprint = "";
    topology = "embedded";
    host = "cli";
    correlation = "c1";
  };
  program = known "current" seen;
  phase = known "ACTIVE" seen;
  engagement = known "active" seen;
  delivery = known "planning" seen;
  workspace = known "absent" seen;
  work_package = known "absent" seen;
  plan = known "valid" seen;
  configuration = known "verified" seen;
  configuration_policy = known policy seen;
  runtime = known "verified" seen;
  publication = known "none" seen;
  verification = known "unverified" seen;
  recovery = known "none" seen;
  transaction = known "none" seen;
  recovery_info = absent no_recovery "no recovery" [];
  transaction_info = absent no_transaction "no transaction" [];
  terminal = known "nonterminal" seen;
  objective = known objective seen;
  program_facts = ("delivery.review.state", known "open" seen) ∷ [];
  extension_facts = [];
  observed_at = 9;
}

abbrev interruption : InterruptionContract
interruption = record {
  points = "after-effect" ∷ [];
  partial_state = "state" ∷ [];
  detection = "fresh-observation";
  resume_contract = "resume";
  rollback_contract = "rollback";
  compensation_contract = "none";
  recovery = "runtime.recover";
  recovery_authority = "repository-policy";
  resumption_predicate = "fresh-state";
}

abbrev no_policy : PolicyContract
no_policy = record {
  required_when = "";
  authority_rule = "";
  availability_rule = "";
  current_evidence_prefix = "";
  managed_operations = "publication.push" ∷ [];
  binds_requested_objective = false;
  reconciles_program = false;
  rechecks_external_state = false;
  objective_scope = ObjectiveScope.objective_bound_exact;
}

abbrev assigns_nothing : StateEffect
assigns_nothing = record {
  kind = "assignments";
  preconditions = [];
  assignments = [];
  native_handler = "";
}

abbrev plan_is : String → FacetCondition
plan_is value = record { facet = "plan"; statuses = "known" ∷ []; values = value ∷ [] }

abbrev pub output : WorkOutput
output = record {
  id = "report";
  path = "report.md";
  media_type = "text/markdown";
  required = true;
  max_bytes = ℤ.pos 4096;
  guidance_path = "";
  guidance_sha256 = "";
  guidance_content = "";
  schema_path = "";
  schema_sha256 = "";
  schema_content = "";
}

abbrev pub work : WorkContract
work = record {
  id = "review";
  fingerprint = digest;
  instruction_path = "review.md";
  instruction_sha256 = digest;
  instruction_content = "Review the plan.";
  inputs = [];
  outputs = output ∷ [];
}

-- A transition of a control program that approves a valid plan.
abbrev pub approve : Transition
approve = record {
  id = "plan.review";
  version = ℤ.pos 1;
  origin = record {
    kind = "control-program";
    id = "program";
    version = "1";
    manifest_fingerprint = "m";
  };
  owner = "team";
  selection_class = "PROGRAM_PROGRESS";
  class = "owned-local";
  source_phases = "ACTIVE" ∷ [];
  target_phases = "ACTIVE" ∷ [];
  target_ids = "approved-plan" ∷ [];
  required_identity = "repository" ∷ [];
  authority = "repository-policy" ∷ [];
  authority_all = [];
  required_capabilities = [];
  declared_capabilities = "repository.write" ∷ "product.mutate" ∷ [];
  runtime_execution = false;
  required_evidence = "state" ∷ [];
  owned_resources = "plan" ∷ [];
  owned_facets = "product" ∷ "control" ∷ [];
  state_effect = assigns_nothing;
  effect = "plan.review";
  local_effects = "plan.review" ∷ [];
  external_effects = [];
  idempotent = true;
  parameters = [];
  prescription = record {
    operation = "review";
    arguments = [];
    authority_prompt = "";
    expected_postcondition = "approved";
  };
  source_predicate = "valid";
  source_conditions = plan_is "valid" ∷ [];
  admission_predicate = "admitted";
  target_predicate = "approved";
  target_conditions = plan_is "approved" ∷ [];
  verifier = "plan";
  interruption = interruption;
  reversibility = "reversible";
  terminal_effect = "none";
  privacy_classification = "metadata-only";
  telemetry_classification = "receipt";
  cost_class = "local";
  policy = no_policy;
  priority = ℤ.pos 1;
  allows_identity_rebind = false;
  allows_worktree_transfer = false;
  execution_context = "";
  binds_source_revision = false;
  authority_fingerprint_parameter = "";
  work = some work;
}

-- The recovery of the core system.
abbrev pub recover : Transition
recover = record approve {
  id = "runtime.recover";
  origin = record {
    kind = "core-system";
    id = "boatstack.core";
    version = "1";
    manifest_fingerprint = "m";
  };
  selection_class = "SYSTEM_RECOVERY";
  class = "recovery";
  source_phases = "RECOVERY" ∷ [];
  owned_resources = "recovery-journal" ∷ [];
  owned_facets = "control" ∷ [];
  declared_capabilities = "repository.write" ∷ [];
  effect = "runtime.recover";
  local_effects = "runtime.recover" ∷ [];
  policy = record no_policy { managed_operations = [] };
  work = none;
}

abbrev pub program : List Transition
program = approve ∷ recover ∷ []

abbrev pub base : List ObjectiveContract
base =
    record { target_id = "approved-plan"; trusted_class = ""; conditions = plan_is "approved" ∷ [] }
    ∷ []

abbrev pub extension : Extension
extension =
    (
      "approved-plan",
      record { facet = "runtime"; statuses = "known" ∷ []; values = "verified" ∷ [] } ∷ [],
    )
    ∷ []

abbrev pub authority : AuthoritySet
authority = ("repository-policy", true) ∷ ("human", false) ∷ []

-- What New makes of the program.
abbrev pub registry : Registry
registry = record {
  ordered = recover ∷ approve ∷ [];
  by_id = ("runtime.recover", recover) ∷ ("plan.review", approve) ∷ [];
  managed_operation = ("publication.push", "plan.review") ∷ [];
}

abbrev compiled : List FacetCondition → ObjectiveContracts
compiled conditions =
    (
      "approved-plan",
      record {
        target_id = "approved-plan";
        trusted_class = "approved-plan";
        conditions = conditions;
      },
    )
    ∷ []

-- What NewObjectiveContracts makes of the base, without and with the extension.
abbrev pub base_only : ObjectiveContracts
base_only = compiled (plan_is "approved" ∷ [])

abbrev pub extended_too : ObjectiveContracts
extended_too = compiled (
    plan_is "approved"
    ∷ record { facet = "runtime"; statuses = "known" ∷ []; values = "verified" ∷ [] }
    ∷ [])

-- What Canonicalize makes of the observation.
abbrev pub snapshot : Snapshot
snapshot = record {
  observation = record observation {
    configuration_policy = known (record policy { hosts = "cli" ∷ "web" ∷ [] }) seen;
    program_facts = ("delivery.review.state", known "open" (record seen { observed_at = 0 })) ∷ [];
  };
  fingerprint = digest;
}

-- The snapshot with an approved plan, and one of a program that has drifted.
abbrev pub approved : Snapshot
approved = record {
  observation = record observation { plan = known "approved" seen };
  fingerprint = digest;
}

abbrev pub drifted : Snapshot
drifted = record {
  observation = record observation { program = known "drift" seen };
  fingerprint = digest;
}

abbrev pub supervisor : Supervisor
supervisor = record { registry = registry; contracts = extended_too }

abbrev pub request : Request
request = record {
  snapshot = snapshot;
  objective = objective;
  authority = authority;
  requested = "";
}

abbrev pub push : CommandIntent
push = record {
  class = "managed-bypass";
  operation = "publication.push";
  fingerprint = digest;
  transition = "";
}
