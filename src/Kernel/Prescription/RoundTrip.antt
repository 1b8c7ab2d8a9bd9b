-- ===== src/Kernel/Prescription/RoundTrip.antt =====
-- A new prescription is current where it was made.
use Prim.Native.String.{◌++◌}
use boatstack.Base.{String, ◌≡◌, subst, true, Option, List, eq_refl}
use boatstack.Kernel.Types.{
  Freshness, ObjectiveBinding, Objective, ControlState, Observation, Prescription, Transition,
  Capability, AuthorityProjection, prescription_schema_version,
}
use boatstack.Kernel.Codec.{Codec, content_hash}
use boatstack.Kernel.Error.{ok, >>=-eq-ok, check-then, ok-injective}
use boatstack.Kernel.Freshness.{validate_freshness, new_freshness}
use boatstack.Kernel.Prescription.{
  validate_current, new_prescription, is_current, check_identity, current_freshness,
  requested_binding, identify,
}
use boatstack.Kernel.Prescription.Current.{equal_binding_refl, check_self}

module _ (codec : Codec) (s : ControlState) (o : Observation) (a : AuthorityProjection) where
  abbrev now : String → Freshness
  now binding = record {
    expected_instance_id = s.instance_id;
    expected_state_revision = s.revision;
    expected_program_fingerprint = s.program.fingerprint;
    expected_snapshot_fingerprint = o.fingerprint;
    expected_objective_binding_fingerprint = binding;
    authority_fingerprint = a.fingerprint;
  }

  -- what is made at this moment, without an identity
  abbrev draft : Transition → Option ObjectiveBinding → List Capability → String → Prescription
  draft t requested required binding = record {
    schema_version = prescription_schema_version;
    id = "";
    transition_id = t.id;
    freshness = now binding;
    expected_objective_binding = s.objective_binding;
    requested_objective_binding = requested;
    required_capabilities = required;
  }

  draft-is_current :
      (t : Transition) (requested : Option ObjectiveBinding) (required : List Capability)
      (binding id : String)
      → validate_freshness (now binding) ≡ ok tt
      → is_current codec
          (record (draft t requested required binding) { id = id })
          s
          o
          a
          (ok binding)
        ≡ true
  unfolding is_current current_freshness new_freshness
  draft-is_current t requested required binding id complete =
      rw (complete, check_self (now binding) complete, equal_binding_refl s.objective_binding)

  draft-validate_current :
      (t : Transition) (requested : Option ObjectiveBinding) (required : List Capability)
      (binding id : String)
      → content_hash codec (codec.marshal_binding s.objective_binding) ≡ ok binding
      → validate_freshness (now binding) ≡ ok tt
      → content_hash codec (codec.marshal_prescription (draft t requested required binding)) ≡ ok id
      → validate_current codec
          (record (draft t requested required binding) { id = "prx-" ++ id })
          s
          o
          a
        ≡ ok tt
  unfolding validate_current check_identity
  draft-validate_current t requested required binding id bound complete hashed = rw (
    hashed,
    bound,
    eq_refl ("prx-" ++ id),
    draft-is_current t requested required binding ("prx-" ++ id) complete,
  )

  -- A prescription that `newPrescription` makes is accepted by `validateCurrent` for the state, the
  -- observation and the authority that it was made for.
  pub new_prescription-validate_current :
      (t : Transition) (objective : Option Objective) (required : List Capability)
      (p : Prescription)
      → new_prescription codec s o t objective a required ≡ ok p
      → validate_current codec p s o a ≡ ok tt
  unfolding new_prescription current_freshness new_freshness identify
  new_prescription-validate_current t objective required p h =
      let (binding, bound, h₁) =
        >>=-eq-ok (content_hash codec (codec.marshal_binding s.objective_binding)) _ h in
      let (complete, h₂) = check-then (validate_freshness (now binding)) _ h₁ in
      let (requested, _, h₃) =
        >>=-eq-ok (requested_binding codec t.objective_mutation objective) _ h₂ in
      let (id, hashed, h₄) =
        >>=-eq-ok
          (content_hash codec (codec.marshal_prescription (draft t requested required binding))) _
          h₃ in
      subst (λ q. validate_current codec q s o a ≡ ok tt) (ok-injective _ p h₄)
        (draft-validate_current t requested required binding id bound complete hashed)
