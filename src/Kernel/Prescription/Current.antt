-- ===== src/Kernel/Prescription/Current.antt =====
-- What a prescription that is still current agrees with.
use Prim.Native.String.{◌++◌}
use boatstack.Base.{
  String, ◌≡◌, refl, sym, ap, subst, ◌↔◌, Bool, true, false, not, ◌&&◌, Option, none, some, arith,
  eq_iff, eq_refl, eqb_iff,
}
use boatstack.Base.Int.{eqb_ℤ_iff}
use boatstack.Kernel.Types.{
  Freshness, ObjectiveBinding, ControlState, Observation, Prescription, AuthorityProjection,
  prescription_schema_version,
}
use boatstack.Kernel.Codec.{Codec, content_hash}
use boatstack.Kernel.Error.{
  Error, Check, stale, StaleReason, Result, ok, err, freshness_changed, ◌>>◌, succeeds, check-then,
  refuse_if,
}
use boatstack.Kernel.Objective.{equal_binding}
use boatstack.Kernel.Freshness.{validate_freshness, new_freshness, check_freshness, freshness_eq}
use boatstack.Kernel.Prescription.{validate_current, is_current, check_identity, current_freshness}

freshness_eq_sound : (f g : Freshness) → freshness_eq f g ≡ true → f ≡ g
freshness_eq_sound f g h = ground (
  arith,
  eq_iff f.expected_instance_id g.expected_instance_id,
  eqb_iff f.expected_state_revision g.expected_state_revision,
  eq_iff f.expected_program_fingerprint g.expected_program_fingerprint,
  eq_iff f.expected_snapshot_fingerprint g.expected_snapshot_fingerprint,
  eq_iff f.expected_objective_binding_fingerprint g.expected_objective_binding_fingerprint,
  eq_iff f.authority_fingerprint g.authority_fingerprint,
)

equal_of_not_refused : (b : Bool) (e : Error) → refuse_if (not b) e ≡ ok tt → b ≡ true
equal_of_not_refused true e h = refl
equal_of_not_refused false e h = cc

both_of : (a b : Bool) → (a && b) ≡ true → (a ≡ true) × (b ≡ true)
both_of true b h = (refl, h)
both_of false b h = cc

ok_of_succeeds : (m : Check) → succeeds m ≡ true → m ≡ ok tt
ok_of_succeeds (ok tt) h = refl
ok_of_succeeds (err e) h = cc

freshness_eq_refl : (f : Freshness) → freshness_eq f f ≡ true
freshness_eq_refl f = ground (
  arith,
  eq_refl f.expected_instance_id,
  eq_refl f.expected_program_fingerprint,
  eq_refl f.expected_snapshot_fingerprint,
  eq_refl f.expected_objective_binding_fingerprint,
  eq_refl f.authority_fingerprint,
)

pub check_self : (f : Freshness) → validate_freshness f ≡ ok tt → check_freshness f f ≡ ok tt
unfolding check_freshness
check_self f h = rw (h, freshness_eq_refl f)

-- `Freshness.Check` accepts exactly a complete freshness that the current one equals.
pub check_freshness-eq-ok :
    (f current : Freshness)
    → (check_freshness f current ≡ ok tt) ↔ ((validate_freshness f ≡ ok tt) × (f ≡ current))
unfolding check_freshness
check_freshness-eq-ok f current = (
  λ h.
      let rest =
        validate_freshness current >> refuse_if (not (freshness_eq f current)) freshness_changed in
      let (complete, compared) = check-then (validate_freshness f) rest h in
      let (_, equal) =
        check-then (validate_freshness current)
          (refuse_if (not (freshness_eq f current)) freshness_changed) compared in
      (complete, freshness_eq_sound f current (equal_of_not_refused _ _ equal)),
  λ (complete, same).
      let complete' = subst (λ g. validate_freshness g ≡ ok tt) same complete in
      subst (λ g. check_freshness g current ≡ ok tt) (sym same) (check_self current complete'),
)

pub equal_binding_refl : (b : Option ObjectiveBinding) → equal_binding b b ≡ true
unfolding equal_binding
equal_binding_refl none = refl
equal_binding_refl (some b) =
    ground (arith, eq_refl b.objective_id, eq_refl b.objective_fingerprint)

equal_binding_sound : (b c : Option ObjectiveBinding) → equal_binding b c ≡ true → b ≡ c
unfolding equal_binding
equal_binding_sound none none h = refl
equal_binding_sound none (some c) h = cc
equal_binding_sound (some b) none h = cc
equal_binding_sound (some b) (some c) h = ground (
  arith,
  eq_iff b.objective_id c.objective_id,
  eqb_iff b.objective_revision c.objective_revision,
  eq_iff b.objective_fingerprint c.objective_fingerprint,
)

-- The prescription names this state, observation and authority, and nothing of it was changed since
-- its identity was made.
pub record IsCurrent (codec : Codec) (p : Prescription) (s : ControlState) (o : Observation)
    (a : AuthorityProjection) : Type 0 where
  pub content : String
  pub hashed : content_hash codec (codec.marshal_prescription (record p { id = "" })) ≡ ok content
  pub identity : p.id ≡ "prx-" ++ content
  pub schema : p.schema_version ≡ prescription_schema_version
  pub instance : p.freshness.expected_instance_id ≡ s.instance_id
  pub revision : p.freshness.expected_state_revision ≡ s.revision
  pub program : p.freshness.expected_program_fingerprint ≡ s.program.fingerprint
  pub snapshot : p.freshness.expected_snapshot_fingerprint ≡ o.fingerprint
  pub authority : p.freshness.authority_fingerprint ≡ a.fingerprint
  pub binding : p.expected_objective_binding ≡ s.objective_binding

module _ (codec : Codec) (p : Prescription) (s : ControlState) (o : Observation)
    (a : AuthorityProjection) where
  -- the freshness of this moment
  abbrev made : String → Freshness
  made binding = record {
    expected_instance_id = s.instance_id;
    expected_state_revision = s.revision;
    expected_program_fingerprint = s.program.fingerprint;
    expected_snapshot_fingerprint = o.fingerprint;
    expected_objective_binding_fingerprint = binding;
    authority_fingerprint = a.fingerprint;
  }

  check_identity-eq-ok :
      (want : String) (r : Result String)
      → check_identity codec want r ≡ ok tt
      → (content : String) × (r ≡ ok content) × (want ≡ "prx-" ++ content)
  unfolding check_identity
  check_identity-eq-ok want (err e) h = cc
  check_identity-eq-ok want (ok got) h = (got, refl, ground (arith, eq_iff want ("prx-" ++ got)))

  is_current-eq-true :
      (r : Result String)
      → is_current codec p s o a r ≡ true
      → (binding : String) × (p.schema_version ≡ prescription_schema_version)
        × (check_freshness p.freshness (made binding) ≡ ok tt)
        × (equal_binding p.expected_objective_binding s.objective_binding ≡ true)
  unfolding is_current current_freshness new_freshness
  is_current-eq-true (err e) h = cc
  is_current-eq-true (ok binding) h =
      let (rest, bound) = both_of _ _ h in
      let (checked, same) = both_of _ _ rest in
      let (schema, _) = both_of _ _ checked in
      (
        binding,
        (eqb_ℤ_iff p.schema_version prescription_schema_version).0 schema,
        ok_of_succeeds _ same,
        bound,
      )

  -- A prescription that `validateCurrent` accepts has the identity of its content, and names the
  -- instance, the revision, the program, the observation, the authority and the objective binding of
  -- the moment that it is checked against.
  pub validate_current-IsCurrent : validate_current codec p s o a ≡ ok tt → IsCurrent codec p s o a
  unfolding validate_current
  validate_current-IsCurrent h =
      let bound = content_hash codec (codec.marshal_binding s.objective_binding) in
      let current = is_current codec p s o a bound in
      let (identified, unchanged) =
        check-then
          (check_identity codec p.id
            (content_hash codec (codec.marshal_prescription (record p { id = "" }))))
          (refuse_if (not current) (stale StaleReason.identities_changed)) h in
      let (content, hashed, identity) = check_identity-eq-ok p.id _ identified in
      let (binding, schema, fresh, same) =
        is_current-eq-true bound (equal_of_not_refused current _ unchanged) in
      let (_, is) = (check_freshness-eq-ok p.freshness (made binding)).0 fresh in
      record {
        content = content;
        hashed = hashed;
        identity = identity;
        schema = schema;
        instance = ap (λ (f : Freshness). f.expected_instance_id) is;
        revision = ap (λ (f : Freshness). f.expected_state_revision) is;
        program = ap (λ (f : Freshness). f.expected_program_fingerprint) is;
        snapshot = ap (λ (f : Freshness). f.expected_snapshot_fingerprint) is;
        authority = ap (λ (f : Freshness). f.authority_fingerprint) is;
        binding = equal_binding_sound _ _ same;
      }
