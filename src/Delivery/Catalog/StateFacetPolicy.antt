-- ===== src/Delivery/Catalog/StateFacetPolicy.antt =====
-- boatstack/internal/softwaredelivery/catalog/state_facet.go.
use Prim.Native.String.{◌++◌}
use boatstack.Base.{
  String, Bool, true, not, ◌||◌, ◌==◌, Option, none, some, List, [], ◌∷◌, contains, is_empty,
  if◌then◌else◌,
}
use boatstack.Kernel.Error.{
  Check, Result, Error, says, says_of, quoted, ok, err, ◌>>=◌, ◌>>◌, refuse_if,
}
use boatstack.Delivery.Model.Phase
use boatstack.Delivery.Model.Engagement
use boatstack.Delivery.Model.DeliveryState
use boatstack.Delivery.Model.Workspace
use boatstack.Delivery.Model.Plan
use boatstack.Delivery.Model.WorkPackage
use boatstack.Delivery.Model.Configuration
use boatstack.Delivery.Model.RuntimeState
use boatstack.Delivery.Model.Publication
use boatstack.Delivery.Model.Verification
use boatstack.Delivery.Model.Recovery
use boatstack.Delivery.Model.TransactionState
use boatstack.Delivery.Model.Terminal
use boatstack.Delivery.Model.FacetName
use boatstack.Delivery.Model.FacetName.{FacetName}
use boatstack.Delivery.Model.StateFacet
use boatstack.Delivery.Model.StateFacet.{StateFacet}
use boatstack.Delivery.Model.StateFacets.{normalize_state_facets}
use boatstack.Delivery.Model.Facet.{lookup}
use boatstack.Delivery.Catalog.OriginKind
use boatstack.Delivery.Catalog.EventClass
use boatstack.Delivery.Catalog.Capability
use boatstack.Delivery.Catalog.Capability.{Capability}
use boatstack.Delivery.Catalog.Authority.{new_capability_set, contains_all}
use boatstack.Delivery.Catalog.Transition.{Transition, TransitionId}

pub record StateFacetPolicy : Type 0 where
  pub reads : List StateFacet
  pub writes : List StateFacet

-- allStateFacets
abbrev pub all_state_facets : List StateFacet
all_state_facets =
    StateFacet.installation ∷ StateFacet.program ∷ StateFacet.control ∷ StateFacet.product ∷ []

-- declaredStateFieldFacets
abbrev declared_state_field_facets : List (String × StateFacet)
declared_state_field_facets =
    ("program_fingerprint", StateFacet.program)
    ∷ ("phase", StateFacet.control)
    ∷ ("engagement", StateFacet.product)
    ∷ ("delivery", StateFacet.product)
    ∷ ("workspace", StateFacet.product)
    ∷ ("plan", StateFacet.product)
    ∷ ("configuration", StateFacet.control)
    ∷ ("runtime", StateFacet.installation)
    ∷ ("publication", StateFacet.product)
    ∷ ("verification", StateFacet.product)
    ∷ ("recovery", StateFacet.control)
    ∷ ("transaction", StateFacet.control)
    ∷ ("terminal", StateFacet.product)
    ∷ ("source_revision", StateFacet.product)
    ∷ ("worktree_fingerprint", StateFacet.product)
    ∷ ("config_fingerprint", StateFacet.control)
    ∷ ("runtime_version", StateFacet.installation)
    ∷ ("runtime_fingerprint", StateFacet.installation)
    ∷ ("runtime_source", StateFacet.installation)
    ∷ ("workspace_branch", StateFacet.product)
    ∷ ("workspace_path", StateFacet.product)
    ∷ ("workspace_base_ref", StateFacet.product)
    ∷ ("workspace_source_path", StateFacet.product)
    ∷ ("workspace_source_id", StateFacet.product)
    ∷ ("workspace_source_ref", StateFacet.product)
    ∷ ("transaction_id", StateFacet.control)
    ∷ ("transaction_transition", StateFacet.control)
    ∷ ("recovery_cause", StateFacet.control)
    ∷ ("recovery_source_phase", StateFacet.control)
    ∷ ("recovery_resumption", StateFacet.control)
    ∷ ("recovery_budget", StateFacet.control)
    ∷ []

-- DeclaredStateFieldFacet
unfoldable pub declared_state_field_facet : String → Option StateFacet
declared_state_field_facet field = lookup declared_state_field_facets field

-- The cases of the `switch` of ValidDeclaredStateLiteral on one value, by the field.
abbrev literal_tests : String → List (String × Bool)
literal_tests value =
    ("phase", Phase.is_valid value)
    ∷ ("engagement", Engagement.is_valid value)
    ∷ ("delivery", DeliveryState.is_valid value)
    ∷ ("workspace", Workspace.is_valid value)
    ∷ ("plan", Plan.is_valid value)
    ∷ ("work_package", WorkPackage.is_valid value)
    ∷ ("configuration", Configuration.is_valid value)
    ∷ ("runtime", RuntimeState.is_valid value)
    ∷ ("publication", Publication.is_valid value)
    ∷ ("verification", Verification.is_valid value)
    ∷ ("recovery", Recovery.is_valid value)
    ∷ ("transaction", TransactionState.is_valid value)
    ∷ ("terminal", Terminal.is_valid value)
    ∷ ("recovery_source_phase", value == "" || Phase.is_valid value)
    ∷ ("recovery_resumption", value == "" || Phase.is_valid value)
    ∷ ("recovery_budget", value == "0")
    ∷ []

abbrev or_true : Option Bool → Bool
or_true none = true
or_true (some answer) = answer

-- ValidDeclaredStateLiteral
unfoldable pub valid_declared_state_literal : String → String → Bool
valid_declared_state_literal field value = or_true (lookup (literal_tests value) field)

abbrev resolver_facets : List (String × FacetName)
resolver_facets =
    ("engagement", FacetName.engagement)
    ∷ ("delivery", FacetName.delivery)
    ∷ ("workspace", FacetName.workspace)
    ∷ ("plan", FacetName.plan)
    ∷ ("work_package", FacetName.work_package)
    ∷ ("configuration", FacetName.configuration)
    ∷ ("runtime", FacetName.runtime)
    ∷ ("publication", FacetName.publication)
    ∷ ("verification", FacetName.verification)
    ∷ ("recovery", FacetName.recovery)
    ∷ ("transaction", FacetName.transaction)
    ∷ ("terminal", FacetName.terminal)
    ∷ []

-- DeclaredStateResolverFacet
unfoldable pub declared_state_resolver_facet : String → Option FacetName
declared_state_resolver_facet field = lookup resolver_facets field

-- the loops over the writes: the first one that the origin may not own is refused
abbrev pub refuse_facets : (StateFacet → Bool) → (StateFacet → Error) → List StateFacet → Check
refuse_facets refused e [] = ok tt
refuse_facets refused e (facet ∷ facets) = do
  refuse_if (refused facet) (e facet)
  refuse_facets refused e facets

-- the `switch` on the kind of the origin
unfoldable pub check_origin : Transition → List StateFacet → Check
check_origin t writes =
    if t.origin.kind == OriginKind.control_program
    then refuse_facets (λ facet. facet == StateFacet.installation || facet == StateFacet.program)
        (λ facet.
          says "%s: control program cannot own %q durable state" (quoted t.id ∷ quoted facet ∷ []))
        writes
    else if t.origin.kind == OriginKind.extension
    then refuse_facets (λ facet. not (facet == StateFacet.control))
        (λ facet.
          says "%s: extension cannot own %q durable state" (quoted t.id ∷ quoted facet ∷ []))
        writes
    else refuse_if (not (t.origin.kind == OriginKind.core_system))
        (says "transition %q has no valid durable state facet policy origin" (quoted t.id ∷ []))

-- `if err != nil || len(writes) == 0`
abbrev pub require_writes : TransitionId → Result (List StateFacet) → Result (List StateFacet)
require_writes id (err e) =
    err (says_of "%s: controllable transition requires valid owned facets: %v" (quoted id ∷ []) e)
require_writes id (ok writes) =
    refuse_if (is_empty writes)
      (says "%s: controllable transition requires valid owned facets: <nil>" (quoted id ∷ []))
    >> ok writes

-- DurableStateFacetPolicy of a controllable transition
unfoldable pub owned_policy : Transition → Result StateFacetPolicy
unfolding check_origin
owned_policy t = do
  writes ← require_writes t.id (normalize_state_facets (t.id ++ ".owned_facets") t.owned_facets)
  refuse_if (not (contains writes StateFacet.control)) (
      says "%s: controllable transition must own %q durable state"
        (quoted t.id ∷ quoted StateFacet.control ∷ []))
  check_origin t writes
  ok (record { reads = all_state_facets; writes = writes })

-- DurableStateFacetPolicy
unfoldable pub durable_state_facet_policy : Transition → Result StateFacetPolicy
unfolding owned_policy
durable_state_facet_policy t =
    if t.class == EventClass.observed_external
    then ok (record { reads = all_state_facets; writes = [] })
    else owned_policy t

-- RecoveryStateFacets
unfoldable pub recovery_state_facets : TransitionId → List Capability → List StateFacet
recovery_state_facets id required =
    if contains
      ("runtime.hydrate" ∷ "runtime.replace" ∷ "runtime.reconcile" ∷ "installation.update" ∷ []) id
    then StateFacet.control ∷ StateFacet.installation ∷ []
    else if contains ("installation.initialize" ∷ "installation.reconcile-update" ∷ []) id
    then StateFacet.control ∷ StateFacet.installation ∷ StateFacet.program ∷ []
    else if contains ("repository.attach" ∷ "catalog.reconcile" ∷ []) id
    then StateFacet.control ∷ StateFacet.program ∷ []
    else if contains_all (new_capability_set required) (Capability.product_mutate ∷ [])
    then StateFacet.control ∷ StateFacet.product ∷ []
    else StateFacet.control ∷ []
