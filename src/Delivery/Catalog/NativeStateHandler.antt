-- ===== src/Delivery/Catalog/NativeStateHandler.antt =====
-- boatstack/internal/softwaredelivery/catalog/native_state_handler.go.
use Prim.Native.String.{◌++◌}
use boatstack.Base.{
  same_flag, String, Bool, true, false, not, ◌&&◌, ◌||◌, ◌==◌, List, [], ◌∷◌, contains,
}
use boatstack.Kernel.Types.{
  ObjectiveScope, objective_none, objective_optional_preserve, objective_bound_exact,
}
use boatstack.Kernel.Error.{Check, says, quoted, listed, ◌>>=◌, ◌>>◌, refuse_if, from_option}
use boatstack.Delivery.Model.StateFacet
use boatstack.Delivery.Model.StateFacet.{StateFacet}
use boatstack.Delivery.Model.StateFacets.{normalize_state_facets}
use boatstack.Delivery.Model.Facet.{lookup}
use boatstack.Delivery.Catalog.Transition.{Transition, EffectId}

pub record NativeStateHandlerContract : Type 0 where
  pub component_ids : List String
  pub effects : List EffectId
  pub owned_facets : List StateFacet
  pub objective_scopes : List ObjectiveScope
  pub binds_requested_objective : Bool

-- coreNative
abbrev core_native : List EffectId → List StateFacet → ObjectiveScope → NativeStateHandlerContract
core_native effects facets scope = record {
  component_ids = "boatstack.core" ∷ [];
  effects = effects;
  owned_facets = facets;
  objective_scopes = scope ∷ [];
  binds_requested_objective = false;
}

-- standardNative
abbrev standard_native : List EffectId → ObjectiveScope → NativeStateHandlerContract
standard_native effects scope = record {
  component_ids = "boatstack.standard" ∷ [];
  effects = effects;
  owned_facets = StateFacet.control ∷ StateFacet.product ∷ [];
  objective_scopes = scope ∷ [];
  binds_requested_objective = false;
}

abbrev optional_preserve : ObjectiveScope
optional_preserve = objective_optional_preserve

abbrev bound_exact : ObjectiveScope
bound_exact = objective_bound_exact

abbrev installed : List StateFacet
installed = StateFacet.control ∷ StateFacet.installation ∷ []

abbrev installed_program : List StateFacet
installed_program = StateFacet.control ∷ StateFacet.installation ∷ StateFacet.program ∷ []

-- nativeStateHandlerContracts
abbrev native_state_handler_contracts : List (String × NativeStateHandlerContract)
native_state_handler_contracts =
    (
      "runtime-verified-settled",
      core_native ("runtime.hydrate" ∷ "runtime.replace" ∷ []) installed optional_preserve,
    )
    ∷ ("runtime-reconcile", core_native ("runtime.reconcile" ∷ []) installed optional_preserve)
    ∷ (
      "configuration-verified-settled",
      core_native ("configuration.initialize" ∷ "configuration.mutate" ∷ [])
          (StateFacet.control ∷ []) optional_preserve,
    )
    ∷ (
      "configuration-reconcile",
      core_native ("configuration.reconcile" ∷ []) (StateFacet.control ∷ []) optional_preserve,
    )
    ∷ (
      "installation-initialize",
      core_native ("installation.initialize" ∷ []) installed_program optional_preserve,
    )
    ∷ (
      "installation-reconcile-update",
      core_native ("installation.reconcile-update" ∷ []) installed_program optional_preserve,
    )
    ∷ (
      "catalog-reconcile",
      core_native ("catalog.reconcile" ∷ []) (StateFacet.control ∷ StateFacet.program ∷ [])
          optional_preserve,
    )
    ∷ (
      "objective-bind",
      record {
        component_ids = "boatstack.core" ∷ [];
        effects = "objective.bind" ∷ [];
        owned_facets = StateFacet.control ∷ StateFacet.product ∷ [];
        objective_scopes = objective_none ∷ [];
        binds_requested_objective = true;
      },
    )
    ∷ ("plan-approve", standard_native ("plan.approve" ∷ []) bound_exact)
    ∷ ("work-package-admit", standard_native ("work.package.admit" ∷ []) bound_exact)
    ∷ ("work-package-approve", standard_native ("work.package.approve" ∷ []) bound_exact)
    ∷ ("planning-package-promote", standard_native ("planning.package.promote" ∷ []) bound_exact)
    ∷ (
      "abandon-delivery",
      standard_native ("plan.abandon" ∷ "publication.abandon" ∷ []) bound_exact,
    )
    ∷ ("workspace-cleanup", standard_native ("workspace.cleanup" ∷ []) bound_exact)
    ∷ ("workspace-reap", standard_native ("workspace.reap" ∷ []) bound_exact)
    ∷ ("workspace-reconcile", standard_native ("workspace.reconcile" ∷ []) optional_preserve)
    ∷ ("gate-build-record", standard_native ("gate.build.record" ∷ []) bound_exact)
    ∷ ("gate-test-record", standard_native ("gate.test.record" ∷ []) bound_exact)
    ∷ ("gate-review-record", standard_native ("gate.review.record" ∷ []) bound_exact)
    ∷ ("gate-change-record", standard_native ("gate.change.record" ∷ []) bound_exact)
    ∷ ("gate-journey-record", standard_native ("gate.journey.record" ∷ []) bound_exact)
    ∷ ("visual-evidence-attach", standard_native ("evidence.visual.attach" ∷ []) bound_exact)
    ∷ (
      "publication-observe",
      record {
        component_ids = "boatstack.standard" ∷ [];
        effects = "publication.observe" ∷ "publication.reconcile" ∷ [];
        owned_facets = StateFacet.control ∷ StateFacet.product ∷ [];
        objective_scopes = bound_exact ∷ optional_preserve ∷ [];
        binds_requested_objective = false;
      },
    )
    ∷ []

-- `==` of two scopes
abbrev scope_eq : ObjectiveScope → ObjectiveScope → Bool
scope_eq ObjectiveScope.objective_none ObjectiveScope.objective_none = true
scope_eq ObjectiveScope.objective_optional_preserve ObjectiveScope.objective_optional_preserve =
    true
scope_eq ObjectiveScope.objective_bound_exact ObjectiveScope.objective_bound_exact = true
scope_eq (ObjectiveScope.other_scope a) (ObjectiveScope.other_scope b) = a == b
scope_eq _ _ = false

-- slices.Contains
abbrev contains_scope : List ObjectiveScope → ObjectiveScope → Bool
contains_scope [] wanted = false
contains_scope (scope ∷ scopes) wanted = scope_eq scope wanted || contains_scope scopes wanted

-- slices.Equal
abbrev same_texts : List String → List String → Bool
same_texts [] [] = true
same_texts (x ∷ xs) (y ∷ ys) = x == y && same_texts xs ys
same_texts [] (_ ∷ _) = false
same_texts (_ ∷ _) [] = false

-- what validateNativeStateHandler checks of a registered contract
unfoldable pub check_native_handler : Transition → NativeStateHandlerContract → Check
check_native_handler t contract = do
  refuse_if (not (contains contract.component_ids t.origin.id)) (
      says "%s: component %q cannot invoke native state handler %q"
        (quoted t.id ∷ quoted t.origin.id ∷ quoted t.state_effect.native_handler ∷ []))
  refuse_if (not (contains contract.effects t.effect)) (
      says "%s: native state handler %q is incompatible with effect %q"
        (quoted t.id ∷ quoted t.state_effect.native_handler ∷ quoted t.effect ∷ []))
  writes ← normalize_state_facets (t.id ++ ".owned_facets") t.owned_facets
  expected ←
      normalize_state_facets (t.state_effect.native_handler ++ ".owned_facets")
        contract.owned_facets
  refuse_if (not (same_texts writes expected)) (
      says "%s: native state handler %q requires owned facets %v"
        (quoted t.id ∷ quoted t.state_effect.native_handler ∷ listed expected ∷ []))
  refuse_if
      (not (contains_scope contract.objective_scopes t.policy.objective_scope)
        || not (same_flag t.policy.binds_requested_objective contract.binds_requested_objective))
      (says "%s: native state handler %q has incompatible objective policy"
        (quoted t.id ∷ quoted t.state_effect.native_handler ∷ []))

-- validateNativeStateHandler
unfoldable pub validate_native_state_handler : Transition → Check
unfolding check_native_handler
validate_native_state_handler t = do
  contract ←
      from_option
        (says "%s: native state handler %q is not registered"
          (quoted t.id ∷ quoted t.state_effect.native_handler ∷ []))
        (lookup native_state_handler_contracts t.state_effect.native_handler)
  check_native_handler t contract
