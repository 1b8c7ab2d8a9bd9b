-- ===== src/Kernel/Receipt.antt =====
-- Effects and receipts, boatstack/kernel/runtime.go.
use Prim.Native.String.{◌++◌}
use boatstack.Base.{
  String, len, Bool, not, ◌||◌, ◌==◌, List, [], ◌∷◌, contains, is_empty, eqb, if◌then◌else◌,
}
use boatstack.Base.Int.{eqb_ℤ}
use boatstack.Base.Text.{str_ltb}
use boatstack.Kernel.Types.{EffectFact, Transition, Receipt, next_u64, receipt_schema_version}
use boatstack.Kernel.Identifier.{semantic_id, qualified_semantic_id}
use boatstack.Kernel.Objective.{validate_optional_binding}
use boatstack.Kernel.State.{validate_identity}
use boatstack.Kernel.Capability.{normalize_capabilities}
use boatstack.Kernel.Codec.{Codec, content_hash}
use boatstack.Kernel.Error.{
  Result, Check, ok, err, effects_missing, effects_escape, receipt_identity_invalid,
  receipt_incomplete, receipt_without_effects, ◌>>=◌, ◌>>◌, refuse_if,
}

-- the loop of `validateEffects`
check_facts : List String → List EffectFact → Check
check_facts owned [] = ok tt
check_facts owned (fact ∷ facts) = do
  refuse_if
      (not (contains owned fact.facet)
        || not (qualified_semantic_id fact.operation)
        || fact.fingerprint == "")
      effects_escape
  check_facts owned facts

-- validateEffects
unfoldable pub validate_effects : Transition → List EffectFact → Check
unfolding check_facts
validate_effects t facts = do
  refuse_if (is_empty facts) effects_missing
  check_facts t.owned_facets facts

-- the `less` of the sort of the facts in `Apply`
abbrev pub fact_before : EffectFact → EffectFact → Bool
fact_before a b =
    if not (a.facet == b.facet)
    then str_ltb a.facet b.facet
    else if not (a.operation == b.operation)
    then str_ltb a.operation b.operation
    else str_ltb a.fingerprint b.fingerprint

module _ (codec : Codec) where
  check_receipt_identity : String → Result String → Check
  check_receipt_identity want (err _) = err receipt_identity_invalid
  check_receipt_identity want (ok got) =
      refuse_if (not (want == "rcp-" ++ got)) receipt_identity_invalid

  -- Receipt.Validate
  unfoldable pub validate_receipt : Receipt → Check
  unfolding check_receipt_identity content_hash
  validate_receipt r = do
    check_receipt_identity r.id (content_hash codec (codec.marshal_receipt (record r { id = "" })))
    refuse_if
        (not (eqb_ℤ r.schema_version receipt_schema_version)
          || not (semantic_id r.instance_id)
          || r.prescription_id == ""
          || not (qualified_semantic_id r.transition_id)
          || eqb r.prior_state_revision 0
          || not (eqb r.attempt_state_revision (next_u64 r.prior_state_revision))
          || not (eqb r.result_state_revision (next_u64 r.attempt_state_revision))
          || r.authority_fingerprint == ""
          || not (eqb (len r.prior_observation) 64)
          || not (eqb (len r.result_observation) 64)
          || not (r.verification == "satisfied")
          || eqb r.committed_at 0)
        receipt_incomplete
    validate_identity r.program
    validate_optional_binding r.objective_binding
    _ ← normalize_capabilities r.capabilities
    refuse_if (is_empty r.effects) receipt_without_effects
