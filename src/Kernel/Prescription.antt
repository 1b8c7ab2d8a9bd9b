-- ===== src/Kernel/Prescription.antt =====
-- Observations, the objective of a transition, and prescriptions, boatstack/kernel/runtime.go.
pub mod Current
pub mod RoundTrip
use boatstack.Base.{
  ℕ, String, len, Bool, true, false, not, ◌&&◌, ◌||◌, ◌==◌, Option, none, some, List, eqb,
  if◌then◌else◌,
}
use Prim.Native.String.{◌++◌}
use boatstack.Base.Int.{ℤ, eqb_ℤ}
use boatstack.Kernel.Types.{
  Objective, ObjectiveBinding, ControlState, Capability, AuthorityProjection, ObjectiveScope,
  ObjectiveMutation, Transition, Observation, Prescription, Freshness, prescription_schema_version,
}
use boatstack.Kernel.Trace.{
  ObjectiveReason, binding_requires_exact_revision, revision_already_bound, binding_already_absent,
  requires_exact_bound_revision, invalid_scope,
}
use boatstack.Kernel.Codec.{Codec, content_hash}
use boatstack.Kernel.Objective.{
  validate_objective, bind_objective_to, binding_matches, equal_binding,
}
use boatstack.Kernel.Freshness.{new_freshness, check_freshness}
use boatstack.Kernel.Capability.{normalize_capabilities}
use boatstack.Kernel.Ports.{Ports}
use boatstack.Kernel.Error.{
  Result, Check, ok, err, stale, StaleReason, observation_incomplete,
  observation_fingerprint_mismatch, nil_dereference, ◌>>=◌, ◌>>◌, refuse_if, succeeds,
}

module _ (codec : Codec) where
  matches_observation : String → Result String → Check
  matches_observation wanted (err _) = err observation_fingerprint_mismatch
  matches_observation wanted (ok fingerprint) =
      refuse_if (not (fingerprint == wanted)) observation_fingerprint_mismatch

  -- Observation.Validate
  unfoldable pub validate_observation : Observation → Check
  unfolding matches_observation content_hash
  validate_observation o = do
    refuse_if (not (eqb (len o.fingerprint) 64) || o.value == "" || not (codec.json_valid o.value))
        observation_incomplete
    matches_observation o.fingerprint (content_hash codec (codec.marshal_value o.value))

  -- `state.ObjectiveBinding != nil && supplied != nil && state.ObjectiveBinding.Matches(*supplied)`
  unfoldable pub bound_to : Option ObjectiveBinding → Option Objective → Bool
  bound_to none supplied = false
  bound_to (some b) none = false
  bound_to (some b) (some o) = binding_matches codec b o

  -- `supplied != nil && supplied.Validate() == nil`
  exact : Option Objective → Bool
  exact none = false
  exact (some o) = succeeds (validate_objective codec o)

  is_absent : Option ObjectiveBinding → Bool
  is_absent none = true
  is_absent (some _) = false

  -- the `switch` on the objective scope
  objective_in_scope :
      ObjectiveScope
      → Option ObjectiveBinding
      → Option Objective
      → Option Objective × Option ObjectiveReason
  unfolding bound_to
  objective_in_scope ObjectiveScope.objective_none binding supplied = (none, none)
  objective_in_scope ObjectiveScope.objective_optional_preserve binding supplied =
      (if bound_to binding supplied then supplied else none, none)
  objective_in_scope ObjectiveScope.objective_bound_exact binding supplied =
      if bound_to binding supplied
      then (supplied, none)
      else (none, some requires_exact_bound_revision)
  objective_in_scope (ObjectiveScope.other_scope _) binding supplied = (none, some invalid_scope)

  objective_under :
      ObjectiveMutation
      → ObjectiveScope
      → Option ObjectiveBinding
      → Option Objective
      → Option Objective × Option ObjectiveReason
  unfolding objective_in_scope exact is_absent
  objective_under ObjectiveMutation.bind_objective scope binding supplied =
      if not (exact supplied)
      then (none, some binding_requires_exact_revision)
      else if bound_to binding supplied
      then (none, some revision_already_bound)
      else (supplied, none)
  objective_under ObjectiveMutation.clear_objective scope binding supplied =
      if is_absent binding
      then (none, some binding_already_absent)
      else objective_in_scope scope binding supplied
  objective_under _ scope binding supplied = objective_in_scope scope binding supplied

  -- objectiveFor: the objective, and the reason why there is none that is admissible
  unfoldable pub objective_for :
      ControlState → Option Objective → Transition → Option Objective × Option ObjectiveReason
  unfolding objective_under
  objective_for state supplied t =
      objective_under t.objective_mutation t.objective_scope state.objective_binding supplied

  -- the binding that a prescription or a target state asks for
  unfoldable pub bind_optional : Option Objective → Result ObjectiveBinding
  bind_optional none = err nil_dereference
  bind_optional (some o) = bind_objective_to codec o

  requested_binding : ObjectiveMutation → Option Objective → Result (Option ObjectiveBinding)
  unfolding bind_optional
  requested_binding ObjectiveMutation.bind_objective objective = do
    binding ← bind_optional objective
    ok (some binding)
  requested_binding _ objective = ok none

  -- the freshness that a prescription for this moment has
  current_freshness : ControlState → Observation → AuthorityProjection → String → Freshness × Check
  current_freshness state observation authority binding =
      new_freshness state.instance_id state.revision state.program.fingerprint
        observation.fingerprint binding authority.fingerprint

  -- a prescription whose identity is its content
  identify : Prescription → Result Prescription
  identify p = do
    id ← content_hash codec (codec.marshal_prescription (record p { id = "" }))
    ok (record p { id = "prx-" ++ id })

  -- newPrescription
  unfoldable pub new_prescription :
      ControlState
      → Observation
      → Transition
      → Option Objective
      → AuthorityProjection
      → List Capability
      → Result Prescription
  unfolding requested_binding current_freshness identify content_hash
  new_prescription state observation t objective authority required = do
    binding ← content_hash codec (codec.marshal_binding state.objective_binding)
    let made = current_freshness state observation authority binding
    made.1
    requested ← requested_binding t.objective_mutation objective
    identify (record {
      schema_version = prescription_schema_version;
      id = "";
      transition_id = t.id;
      freshness = made.0;
      expected_objective_binding = state.objective_binding;
      requested_objective_binding = requested;
      required_capabilities = required;
    })

  -- `err != nil || want != "prx-"+got`
  check_identity : String → Result String → Check
  check_identity want (err _) = err (stale StaleReason.content_identity_invalid)
  check_identity want (ok got) =
      refuse_if (not (want == "prx-" ++ got)) (stale StaleReason.content_identity_invalid)

  -- the freshness check of `validateCurrent`, given the binding's fingerprint
  is_current :
      Prescription → ControlState → Observation → AuthorityProjection → Result String → Bool
  unfolding current_freshness
  is_current p state observation authority (err _) = false
  is_current p state observation authority (ok binding) =
      let made = current_freshness state observation authority binding in
      eqb_ℤ p.schema_version prescription_schema_version
      && succeeds made.1
      && succeeds (check_freshness p.freshness made.0)
      && equal_binding p.expected_objective_binding state.objective_binding

  -- Prescription.validateCurrent
  unfoldable pub validate_current :
      Prescription → ControlState → Observation → AuthorityProjection → Check
  unfolding check_identity is_current content_hash
  validate_current p state observation authority = do
    check_identity p.id (content_hash codec (codec.marshal_prescription (record p { id = "" })))
    refuse_if
        (not (
          is_current p state observation authority
            (content_hash codec (codec.marshal_binding state.objective_binding))))
        (stale StaleReason.identities_changed)
