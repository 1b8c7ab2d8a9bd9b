-- ===== src/Delivery/Catalog/Authority.antt =====
-- AuthoritySet of boatstack/internal/softwaredelivery/catalog/transition.go, and capability.go. A
-- CapabilitySet is a list of the capabilities that it maps to true; nothing stores false.
pub mod Sets
use boatstack.Base.{
  String, Bool, true, false, not, ◌&&◌, ◌||◌, ◌==◌, Option, none, some, List, [], ◌∷◌, ◌++◌,
  contains, all_of, any_of, is_empty, keep, if◌then◌else◌,
}
use boatstack.Base.Text.{str_ltb}
use boatstack.Base.Sort.{sort}
use boatstack.Kernel.Error.{Check, Result, says, quoted, ok, ◌>>=◌, ◌>>◌, refuse_if}
use boatstack.Delivery.Model.StateFacet
use boatstack.Delivery.Model.StateFacets.{add_valid, concat}
use boatstack.Delivery.Model.Facet.{lookup}
use boatstack.Delivery.Catalog.AuthorityClass
use boatstack.Delivery.Catalog.AuthorityClass.{AuthorityClass}
use boatstack.Delivery.Catalog.Capability
use boatstack.Delivery.Catalog.Capability.{Capability}
use boatstack.Delivery.Catalog.Transition.{Transition}
use boatstack.Delivery.Catalog.Evaluation.{controllable}

-- The entries of the map, with one for each key.
abbrev pub AuthoritySet : Type 0
AuthoritySet = List (AuthorityClass × Bool)

abbrev pub or_false : Option Bool → Bool
or_false none = false
or_false (some present) = present

-- `s[class]`
abbrev pub has_authority : AuthoritySet → AuthorityClass → Bool
has_authority s class = or_false (lookup s class)

-- AuthoritySet.Satisfies
unfoldable pub satisfies : AuthoritySet → List AuthorityClass → List AuthorityClass → Bool
satisfies s alternatives required =
    if any_of (λ class. not (class == AuthorityClass.none) && not (has_authority s class)) required
    then false
    else if is_empty alternatives
    then true
    else any_of (λ class. class == AuthorityClass.none || has_authority s class) alternatives

abbrev pub CapabilitySet : Type 0
CapabilitySet = List Capability

-- NewCapabilitySet
abbrev pub new_capability_set : List Capability → CapabilitySet
new_capability_set values = add_valid Capability.is_valid values []

-- CapabilitySet.ContainsAll
abbrev pub contains_all : CapabilitySet → List Capability → Bool
contains_all s values = all_of (contains s) values

-- the loop of NormalizeCapabilities, with the set of those seen
unfoldable pub collect_capabilities :
    String → CapabilitySet → List Capability → Result CapabilitySet
collect_capabilities field seen [] = ok seen
collect_capabilities field seen (value ∷ values) = do
  refuse_if (not (Capability.is_valid value))
      (says "%s contains unknown capability %q" (quoted field ∷ quoted value ∷ []))
  refuse_if (contains seen value)
      (says "%s duplicates capability %q" (quoted field ∷ quoted value ∷ []))
  collect_capabilities field (value ∷ seen) values

-- NormalizeCapabilities, with CapabilitySet.Sorted
unfoldable pub normalize_capabilities : String → List Capability → Result (List Capability)
unfolding collect_capabilities
normalize_capabilities field values = do
  seen ← collect_capabilities field [] values
  ok (sort str_ltb seen)

-- UnionCapabilities
unfoldable pub union_capabilities : List (List Capability) → List Capability
union_capabilities groups = sort str_ltb (add_valid Capability.is_valid (concat groups) [])

-- MissingCapability: the empty string where nothing is missing
unfoldable pub missing_capability : List Capability → CapabilitySet → Capability
missing_capability [] available = ""
missing_capability (value ∷ values) available =
    let rest = missing_capability values available in
    if not (contains available value) then value else rest

abbrev repository_grant : List Capability
repository_grant =
    Capability.repository_write ∷ Capability.command_execute ∷ Capability.product_mutate
    ∷ Capability.publication_prepare ∷ []

-- `if authority[class] { grant(...) }`
abbrev grant_if : AuthoritySet → AuthorityClass → List Capability → List Capability
grant_if authority class grant = if has_authority authority class then grant else []

-- AuthorityCapabilities
unfoldable pub authority_capabilities : AuthoritySet → CapabilitySet
authority_capabilities authority =
    grant_if authority AuthorityClass.repository repository_grant
    ++ grant_if authority AuthorityClass.human (repository_grant ++ Capability.human_approve ∷ [])
    ++ grant_if authority AuthorityClass.autonomy repository_grant
    ++ grant_if authority AuthorityClass.provider (Capability.publication_publish ∷ [])

-- the effects that execute commands
abbrev executing_effects : List String
executing_effects =
    "gate.build.record" ∷ "gate.test.record" ∷ "workspace.cut" ∷ "workspace.sync"
    ∷ "workspace.cleanup" ∷ "workspace.reap" ∷ "publication.observe" ∷ "publication.reconcile"
    ∷ "publication.execute" ∷ "publication.correct" ∷ []

abbrev pub when : Bool → Capability → List Capability
when condition capability = if condition then capability ∷ [] else []

-- the capabilities that KernelEffectCapabilities adds to its set, in order
abbrev effect_capabilities : Transition → List Capability
effect_capabilities t =
    Capability.repository_write ∷ when t.runtime_execution Capability.command_execute
    ++ when (contains t.owned_facets StateFacet.product) Capability.product_mutate
    ++ when (contains executing_effects t.effect) Capability.command_execute
    ++ when (t.effect == "publication.preview") Capability.publication_prepare
    ++ when (t.effect == "publication.execute" || t.effect == "publication.correct")
        Capability.publication_publish

-- KernelEffectCapabilities
unfoldable pub kernel_effect_capabilities : Transition → List Capability
unfolding union_capabilities
kernel_effect_capabilities t =
    if not (controllable t) then [] else union_capabilities (effect_capabilities t ∷ [])

-- RequiredCapabilities
unfoldable pub required_capabilities : Transition → List Capability
unfolding kernel_effect_capabilities
required_capabilities t =
    union_capabilities (t.required_capabilities ∷ kernel_effect_capabilities t ∷ [])
