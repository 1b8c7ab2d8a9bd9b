-- ===== src/Delivery/Tests.antt =====
-- Runs of the small delivery program, and the theorems at them.
use boatstack.Base.{
  String, List, In, true, false, some, none, [], ◌∷◌, All, inl, inr, ◌⊎◌, ◌↔◌, ◌≡◌, ◌≢◌, refl,
}
use boatstack.Kernel.Error.{ok}
use boatstack.Kernel.Relation.Grants.{Granted}
use boatstack.Delivery.Opened.{delivery_code}
use boatstack.Delivery.Examples.{
  library, observation, program, approve, recover, registry, supervisor, request, snapshot,
  approved, drifted, base, extension, base_only, extended_too, objective, authority, push, work,
  digest, authorize_pattern,
}
use boatstack.Delivery.Model.FacetName
use boatstack.Delivery.Model.Facet.{FacetView, facet, join}
use boatstack.Delivery.Model.Facet.Total.{facet-is_controlling}
use boatstack.Delivery.Model.StateFacet
use boatstack.Delivery.Model.StateFacet.{StateFacet}
use boatstack.Delivery.Model.StateFacets.{concat, normalize_state_facets, union_state_facets}
use boatstack.Delivery.Model.StateFacets.Normal.{
  IsSetOf, normalize_state_facets-IsSetOf, union_state_facets-normalize,
}
use boatstack.Delivery.Model.Canonicalize.{canonicalize}
use boatstack.Delivery.Model.Canonicalize.Canonical.{IsCanonical, canonicalize-IsCanonical}
use boatstack.Delivery.Catalog.Transition.{Transition, FacetCondition}
use boatstack.Delivery.Catalog.Evaluation.{matches}
use boatstack.Delivery.Catalog.Evaluation.Condition.{Holds, matches_iff}
use boatstack.Delivery.Catalog.Authority.{satisfies}
use boatstack.Delivery.Catalog.ObjectiveContract.{contracts_match, new_objective_contracts}
use boatstack.Delivery.Catalog.ObjectiveContract.Narrowing.{extension_narrows}
use boatstack.Delivery.Catalog.WorkContract.{validate_work_contract}
use boatstack.Delivery.Catalog.WorkContract.Bounds.{
  AreUnique, IsBounded, validate_work_contract-IsBounded,
}
use boatstack.Delivery.Catalog.Validate.{validate_transition}
use boatstack.Delivery.Catalog.Validate.Declared.{IsDeclared, validate_transition-IsDeclared}
use boatstack.Delivery.Catalog.Registry.{new_registry, lookup_transition, managed_transition}
use boatstack.Delivery.Catalog.Registry.WellFormed.{IsRegistry, new_registry-IsRegistry}
use boatstack.Delivery.Supervisor.DecisionKind
use boatstack.Delivery.Supervisor.IntentClass
use boatstack.Delivery.Supervisor.Guard.{guard, validate_intent}
use boatstack.Delivery.Supervisor.Guard.Safety.{IsDormant, classified-guard, guard-allowed_iff}
use boatstack.Delivery.Supervisor.Classify.{
  CommandPattern, classify_command_intent, destructive_command_patterns, is_data_only,
}
use boatstack.Delivery.Supervisor.Policy.{available_authority}
use boatstack.Delivery.Supervisor.Policy.Granted.{satisfies-Granted}
use boatstack.Delivery.Supervisor.Resolve.{Request, candidate_of, resolve}
use boatstack.Delivery.Supervisor.Resolve.Sound.{MayPrescribe, resolve-MayPrescribe}
use boatstack.Delivery.Supervisor.Resolve.Live.{MustPrescribe, resolve-MustPrescribe}
use boatstack.Delivery.Supervisor.Resolve.Drift.{IsWayOut, LeavesDrift, resolve-drift}

approve_valid : validate_transition library approve ≡ ok tt
unfolding delivery_code
approve_valid = refl

recover_valid : validate_transition library recover ≡ ok tt
unfolding delivery_code
recover_valid = refl

registers : new_registry library program ≡ ok registry
unfolding delivery_code
registers = refl

canonicalizes : canonicalize library observation ≡ ok snapshot
unfolding delivery_code
canonicalizes = refl

resolves :
    ((resolve supervisor request).kind ≡ DecisionKind.prescribed)
    × ((resolve supervisor request).transition ≡ some approve)
unfolding delivery_code
resolves = (refl, refl)

narrow_base : new_objective_contracts base [] ≡ ok base_only
unfolding delivery_code
narrow_base = refl

narrow_extended : new_objective_contracts base extension ≡ ok extended_too
unfolding delivery_code
narrow_extended = refl

approved_matches : contracts_match extended_too approved objective ≡ true
unfolding delivery_code
approved_matches = refl

new_registry-IsRegistry_example : IsRegistry library program registry
new_registry-IsRegistry_example = new_registry-IsRegistry library program registry registers

validate_transition-IsDeclared_example : IsDeclared approve
validate_transition-IsDeclared_example =
    validate_transition-IsDeclared library approve approve_valid

canonicalize-IsCanonical_example : IsCanonical library snapshot
canonicalize-IsCanonical_example =
    canonicalize-IsCanonical library observation snapshot canonicalizes

resolve-MayPrescribe_example :
    (t : Transition) × ((resolve supervisor request).transition ≡ some t)
    × MayPrescribe supervisor request t
resolve-MayPrescribe_example =
    resolve-MayPrescribe library program supervisor request registers resolves.0

must_prescribe : MustPrescribe supervisor request approve
unfolding delivery_code
must_prescribe = record {
  is_passed = refl;
  is_open = refl;
  is_member = inr (inl refl);
  is_kept = refl;
  is_preferred = refl;
  is_granted = (tt, inr ("authority.repository-policy", inl refl, inl refl));
}

resolve-MustPrescribe_example :
    ((resolve supervisor request).kind ≡ DecisionKind.prescribed)
    × ((resolve supervisor request).transition ≡ some approve)
resolve-MustPrescribe_example =
    resolve-MustPrescribe library program supervisor request approve registers must_prescribe

abbrev drifted_request : Request
drifted_request = record request { snapshot = drifted }

resolve-drift_example :
    (¬ (
        (t : Transition) × (lookup_transition supervisor.registry drifted_request.requested
          ≡ some t)
        × LeavesDrift drifted_request.snapshot t)
      × (((resolve supervisor drifted_request).kind ≡ DecisionKind.unresolved)
          ⊎ ((resolve supervisor drifted_request).kind ≡ DecisionKind.refused))
      × ((resolve supervisor drifted_request).transition ≡ none)
      × ((resolve supervisor drifted_request).candidates ≡ []))
    ⊎ ((t : Transition) × IsWayOut supervisor drifted_request t)
resolve-drift_example = resolve-drift library program supervisor drifted_request registers refl

extension_narrows_example : contracts_match base_only approved objective ≡ true
extension_narrows_example =
    extension_narrows base extension base_only extended_too approved objective narrow_base
      narrow_extended approved_matches

guard-allowed_iff_example : ((guard registry snapshot push).allowed ≡ true) ↔ (
    (validate_intent push ≡ ok tt)
    × (digest ≢ "")
    × (("managed-bypass" ≡ IntentClass.ordinary)
        ⊎ (("managed-bypass" ≡ IntentClass.managed_bypass)
            × ((managed_transition registry "publication.push" ≡ none) ⊎ IsDormant snapshot))))
guard-allowed_iff_example = guard-allowed_iff registry snapshot push

abbrev authorize : String
authorize = "boatstack flow authorize"

authorize_in_shell : is_data_only library authorize ≡ false
unfolding delivery_code
authorize_in_shell = refl

classified-guard_example :
    ((classify_command_intent library authorize).class ≡ IntentClass.destructive)
    × ((classify_command_intent library authorize).fingerprint ≡ library.sha256_hex authorize)
    × ((matched : CommandPattern) × In matched destructive_command_patterns
        × (library.match_string matched.1 (join " " (library.fields authorize)) ≡ true)
        × ((classify_command_intent library authorize).operation ≡ matched.0))
    × ((guard registry snapshot (classify_command_intent library authorize)).allowed ≡ false)
classified-guard_example =
    classified-guard library registry snapshot authorize "delegation.authorize" authorize_pattern
      (inl refl) refl authorize_in_shell

satisfies-Granted_example :
    (satisfies authority approve.authority approve.authority_all ≡ true)
    ↔ Granted (candidate_of request approve) (available_authority authority)
satisfies-Granted_example = satisfies-Granted request approve (refl, (refl, tt)) refl

abbrev plan_is_valid : FacetCondition
plan_is_valid = record { facet = "plan"; statuses = "known" ∷ []; values = "valid" ∷ [] }

matches_iff_example : (matches plan_is_valid snapshot ≡ true) ↔ Holds plan_is_valid snapshot
matches_iff_example = matches_iff plan_is_valid snapshot

work_valid : validate_work_contract library approve ≡ ok tt
unfolding delivery_code
work_valid = refl

validate_work_contract-IsBounded_example : All IsBounded work.outputs × AreUnique [] [] work.outputs
validate_work_contract-IsBounded_example =
    validate_work_contract-IsBounded library approve work refl work_valid

facet-is_controlling_example : (view : FacetView) × (facet snapshot FacetName.plan ≡ some view)
unfolding delivery_code
facet-is_controlling_example = facet-is_controlling snapshot FacetName.plan refl

abbrev facets : List StateFacet
facets = StateFacet.program ∷ StateFacet.control ∷ []

abbrev sorted_facets : List StateFacet
sorted_facets = StateFacet.control ∷ StateFacet.program ∷ []

normalizes : normalize_state_facets "owned" facets ≡ ok sorted_facets
unfolding delivery_code
normalizes = refl

normalize_state_facets-IsSetOf_example :
    IsSetOf facets sorted_facets × (normalize_state_facets "owned" sorted_facets ≡ ok sorted_facets)
normalize_state_facets-IsSetOf_example =
    normalize_state_facets-IsSetOf "owned" facets sorted_facets normalizes

abbrev facet_groups : List (List StateFacet)
facet_groups = facets ∷ ("unknown" ∷ StateFacet.program ∷ []) ∷ []

unites : union_state_facets facet_groups ≡ sorted_facets
unfolding delivery_code
unites = refl

union_state_facets-normalize_example :
    (normalize_state_facets "union" (union_state_facets facet_groups)
      ≡ ok (union_state_facets facet_groups))
    × ((x : StateFacet)
        → In x (union_state_facets facet_groups)
          ↔ (In x (concat facet_groups) × (StateFacet.is_valid x ≡ true)))
union_state_facets-normalize_example = union_state_facets-normalize "union" facet_groups
