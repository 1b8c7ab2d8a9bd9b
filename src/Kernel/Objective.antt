-- ===== src/Kernel/Objective.antt =====
-- Objectives and their bindings, boatstack/kernel/types.go.
use boatstack.Base.{
  ℕ, String, len, Bool, true, false, ◌&&◌, ◌||◌, not, Option, none, some, eqb, ◌==◌,
}
use boatstack.Kernel.Types.{Objective, ObjectiveBinding, binding_eq}
use boatstack.Kernel.Identifier.{semantic_id}
use boatstack.Kernel.Error.{
  Check, Result, ok, err, objective_incomplete, objective_fingerprint_mismatch, from_option,
  marshal_failed, objective_binding_incomplete, ◌>>=◌, ◌>>◌, refuse_if, succeeds,
}
use boatstack.Kernel.Codec.{Codec, content_hash}

-- ObjectiveBinding.Validate
unfoldable pub validate_binding : ObjectiveBinding → Check
validate_binding b =
    refuse_if
      (not (semantic_id b.objective_id)
        || eqb b.objective_revision 0
        || not (eqb (len b.objective_fingerprint) 64))
      objective_binding_incomplete

-- The binding of an optional pointer, where the code validates it only if it is there.
unfoldable pub validate_optional_binding : Option ObjectiveBinding → Check
unfolding validate_binding
validate_optional_binding none = ok tt
validate_optional_binding (some b) = validate_binding b

-- equalBinding of runtime.go
unfoldable pub equal_binding : Option ObjectiveBinding → Option ObjectiveBinding → Bool
equal_binding none none = true
equal_binding none (some _) = false
equal_binding (some _) none = false
equal_binding (some left) (some right) = binding_eq left right

module _ (codec : Codec) where
  -- `err != nil || fingerprint != o.Fingerprint`
  identifies : Result String → String → Check
  identifies (ok fingerprint) wanted =
      refuse_if (not (fingerprint == wanted)) objective_fingerprint_mismatch
  identifies (err _) wanted = err objective_fingerprint_mismatch

  -- Objective.Validate
  unfoldable pub validate_objective : Objective → Check
  unfolding content_hash identifies
  validate_objective o = do
    refuse_if
        (not (semantic_id o.id)
          || eqb o.revision 0
          || not (eqb (len o.fingerprint) 64)
          || o.reference == ""
          || not (codec.json_valid o.reference))
        objective_incomplete
    identifies (content_hash codec (codec.marshal_objective o.id o.revision o.reference))
        o.fingerprint

  -- NewObjective, of a reference that `json.Marshal` has encoded (`none` if it returned an error);
  -- the second value is the error that comes back beside the objective
  unfoldable pub new_objective : String → ℕ → Option String → Result (Objective × Check)
  unfolding content_hash validate_objective
  new_objective id revision reference = do
    encoded ← from_option marshal_failed reference
    fingerprint ← content_hash codec (codec.marshal_objective id revision encoded)
    let objective : Objective = record {
      id = id;
      revision = revision;
      fingerprint = fingerprint;
      reference = encoded;
    }
    ok (objective, validate_objective objective)

  abbrev binding_of : Objective → ObjectiveBinding
  binding_of o = record {
    objective_id = o.id;
    objective_revision = o.revision;
    objective_fingerprint = o.fingerprint;
  }

  -- BindObjective
  unfoldable pub bind_objective_to : Objective → Result ObjectiveBinding
  bind_objective_to o = do validate_objective o; ok (binding_of o)

  -- ObjectiveBinding.Matches
  unfoldable pub binding_matches : ObjectiveBinding → Objective → Bool
  binding_matches b o =
      succeeds (validate_objective o)
      && b.objective_id == o.id
      && eqb b.objective_revision o.revision
      && b.objective_fingerprint == o.fingerprint
