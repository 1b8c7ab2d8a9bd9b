-- ===== src/Delivery/Model/Facet.antt =====
-- Snapshot.Facet of boatstack/internal/softwaredelivery/model/facet.go.
pub mod Total
use Prim.Native.String.{◌++◌}
use boatstack.Base.{
  String, Bool, true, false, not, ◌&&◌, ◌||◌, ◌==◌, Option, none, some, List, [], ◌∷◌,
  if◌then◌else◌,
}
use boatstack.Base.Text.{str_ltb}
use boatstack.Base.Sort.{sort}
use boatstack.Delivery.Model.Fact.{Fact}
use boatstack.Delivery.Model.FactStatus
use boatstack.Delivery.Model.FactStatus.{FactStatus}
use boatstack.Delivery.Model.FacetName
use boatstack.Delivery.Model.FacetName.{FacetName}
use boatstack.Delivery.Model.Contexts.{
  ConfigurationPolicy, canonical, RecoveryContext, TransactionContext,
}
use boatstack.Delivery.Model.Objective.{Objective, trusted_objective_class}
use boatstack.Delivery.Model.Observation.{Snapshot}

-- strings.Join
abbrev pub join : String → List String → String
join separator [] = ""
join separator (value ∷ []) = value
join separator (value ∷ next ∷ values) = value ++ separator ++ join separator (next ∷ values)

-- fmt.Sprint of a Boolean
abbrev print_flag : Bool → String
print_flag true = "true"
print_flag false = "false"

abbrev policy_text : ConfigurationPolicy → String
policy_text value = join "|" (
    value.plan_approval
    ∷ value.visual_evidence
    ∷ value.external_effect_authority
    ∷ print_flag value.independent_review_for_high_risk
    ∷ print_flag value.high_risk_change
    ∷ join "," value.hosts
    ∷ [])

abbrev recovery_text : RecoveryContext → String
recovery_text value =
    join "|" (value.transaction_id ∷ value.cause ∷ value.source_phase ∷ value.resumption ∷ [])

abbrev transaction_text : TransactionContext → String
transaction_text value = join "|" (
    value.id
    ∷ value.transition_id
    ∷ value.status
    ∷ join "," (sort str_ltb value.resource_digests)
    ∷ print_flag value.external_possible
    ∷ [])

abbrev objective_text : Objective → String
objective_text value = join "|" (
    value.id
    ∷ value.target_id
    ∷ trusted_objective_class value
    ∷ value.delivery_id
    ∷ value.evidence_fingerprint
    ∷ print_flag value.frontier_is_stop
    ∷ [])

-- The status and value of a facet.
abbrev pub FacetView : Type 0
FacetView = FactStatus × String

abbrev view_of : Fact String → FacetView
view_of fact = (fact.status, fact.value)

-- The cases of the `switch`, without the default one.
abbrev pub controlling_views : Snapshot → List (FacetName × FacetView)
controlling_views s =
    (FacetName.phase, view_of s.phase)
    ∷ (FacetName.program, view_of s.program)
    ∷ (FacetName.topology, (FactStatus.known, s.invocation.topology))
    ∷ (FacetName.engagement, view_of s.engagement)
    ∷ (FacetName.delivery, view_of s.delivery)
    ∷ (FacetName.workspace, view_of s.workspace)
    ∷ (FacetName.work_package, view_of s.work_package)
    ∷ (FacetName.plan, view_of s.plan)
    ∷ (FacetName.configuration, view_of s.configuration)
    ∷ (
      FacetName.configuration_policy,
      (s.configuration_policy.status, policy_text (canonical s.configuration_policy.value)),
    )
    ∷ (FacetName.runtime, view_of s.runtime)
    ∷ (FacetName.publication, view_of s.publication)
    ∷ (FacetName.verification, view_of s.verification)
    ∷ (FacetName.recovery, view_of s.recovery)
    ∷ (FacetName.transaction, view_of s.transaction)
    ∷ (FacetName.recovery_info, (s.recovery_info.status, recovery_text s.recovery_info.value))
    ∷ (
      FacetName.transaction_info,
      (s.transaction_info.status, transaction_text s.transaction_info.value),
    )
    ∷ (FacetName.terminal, view_of s.terminal)
    ∷ (FacetName.objective, (s.objective.status, objective_text s.objective.value))
    ∷ []

-- The value of a key in a map.
abbrev pub lookup : {V : Type 0} → List (String × V) → String → Option V
lookup [] key = none
lookup ((k, value) ∷ entries) key =
    let rest = lookup entries key in if k == key then some value else rest

abbrev pub or_else : {V : Type 0} → Option V → Option V → Option V
or_else none next = next
or_else (some value) next = some value

abbrev pub map_view : Option (Fact String) → Option FacetView
map_view none = none
map_view (some fact) = some (view_of fact)

-- Snapshot.Facet: `none` where its last result is false
unfoldable pub facet : Snapshot → FacetName → Option FacetView
facet s name =
    or_else (lookup (controlling_views s) name)
      (map_view (or_else (lookup s.program_facts name) (lookup s.extension_facts name)))
