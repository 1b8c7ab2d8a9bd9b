-- ===== src/Delivery/Catalog/ObjectiveContract.antt =====
-- boatstack/internal/softwaredelivery/catalog/objective_contract.go. A map is the list of its
-- entries, with one entry for each key.
pub mod Narrowing
use boatstack.Base.{
  is_some, String, Bool, true, false, not, ◌&&◌, ◌||◌, ◌==◌, Option, none, some, List, [], ◌∷◌,
  ◌++◌, map, all_of, is_empty, if◌then◌else◌,
}
use boatstack.Base.Text.{str_ltb}
use boatstack.Base.Sort.{sort}
use boatstack.Kernel.Error.{Check, Result, says, quoted, ok, ◌>>=◌, ◌>>◌, refuse_if}
use boatstack.Delivery.Model.Fact.{is_known}
use boatstack.Delivery.Model.FactStatus
use boatstack.Delivery.Model.FactStatus.{FactStatus}
use boatstack.Delivery.Model.FacetName
use boatstack.Delivery.Model.Facet.{lookup}
use boatstack.Delivery.Model.Objective.{
  TargetId, is_valid_target, Objective, objective_eq, trusted_objective_class,
}
use boatstack.Delivery.Model.Observation.{Snapshot}
use boatstack.Delivery.Catalog.Transition.{FacetCondition}
use boatstack.Delivery.Catalog.Evaluation.{matches}

pub record ObjectiveContract : Type 0 where
  pub target_id : TargetId
  pub trusted_class : TargetId
  pub conditions : List FacetCondition

abbrev pub ObjectiveContracts : Type 0
ObjectiveContracts = List (TargetId × ObjectiveContract)

abbrev pub Extension : Type 0
Extension = List (TargetId × List FacetCondition)

-- the loop over the statuses of a condition
abbrev check_statuses : TargetId → List FactStatus → Check
check_statuses target [] = ok tt
check_statuses target (status ∷ statuses) = do
  refuse_if (not (FactStatus.is_valid status))
      (says "objective %q has invalid terminal status %q" (quoted target ∷ quoted status ∷ []))
  check_statuses target statuses

-- the loop over the conditions of a contract
unfoldable pub check_conditions : TargetId → List FacetCondition → Check
check_conditions target [] = ok tt
check_conditions target (c ∷ conditions) = do
  refuse_if (not (FacetName.is_valid c.facet) || is_empty c.statuses)
      (says "objective %q has invalid terminal condition" (quoted target ∷ []))
  check_statuses target c.statuses
  check_conditions target conditions

-- `extension[contract.TargetID]`
abbrev pub extension_of : Extension → TargetId → List FacetCondition
extension_of [] target = []
extension_of ((t, conditions) ∷ entries) target =
    let rest = extension_of entries target in if t == target then conditions else rest

-- `if contract.TrustedClass == "" { ... }`
abbrev pub with_trusted_class : ObjectiveContract → ObjectiveContract
with_trusted_class c = if c.trusted_class == "" then record c { trusted_class = c.target_id } else c

-- the conditions of the base, and then those of the extension
abbrev pub extended : Extension → ObjectiveContract → ObjectiveContract
extended extension c = record c { conditions = c.conditions ++ extension_of extension c.target_id }

-- one round of the loop over the base: what it adds to the map
unfoldable pub compile_contract :
    Extension → ObjectiveContracts → ObjectiveContract → Result ObjectiveContract
unfolding check_conditions
compile_contract extension contracts base = do
  refuse_if (not (is_valid_target base.target_id) || is_empty base.conditions)
      (says "objective contract requires a valid objective and conditions" [])
  refuse_if (not (is_valid_target (with_trusted_class base).trusted_class))
      (says "objective contract %q requires a valid trusted class" (quoted base.target_id ∷ []))
  refuse_if (is_some (lookup contracts base.target_id))
      (says "duplicate objective contract %q" (quoted base.target_id ∷ []))
  check_conditions base.target_id (extended extension base).conditions
  ok (extended extension (with_trusted_class base))

-- the loop over the base
unfoldable pub compile_contracts :
    Extension → ObjectiveContracts → List ObjectiveContract → Result ObjectiveContracts
unfolding compile_contract
compile_contracts extension contracts [] = ok contracts
compile_contracts extension contracts (base ∷ bases) = do
  contract ← compile_contract extension contracts base
  compile_contracts extension ((base.target_id, contract) ∷ contracts) bases

-- the loop over the keys of the extension
unfoldable pub check_supported : ObjectiveContracts → Extension → Check
check_supported contracts [] = ok tt
check_supported contracts ((target, conditions) ∷ entries) = do
  refuse_if (not (is_some (lookup contracts target)))
      (says "extension constrains unsupported objective %q" (quoted target ∷ []))
  check_supported contracts entries

-- NewObjectiveContracts
unfoldable pub new_objective_contracts :
    List ObjectiveContract → Extension → Result ObjectiveContracts
unfolding compile_contracts check_supported
new_objective_contracts bases extension = do
  contracts ← compile_contracts extension [] bases
  check_supported contracts extension
  ok contracts

abbrev accepts_class : Objective → Option ObjectiveContract → Bool
accepts_class g none = false
accepts_class g (some contract) = contract.trusted_class == trusted_objective_class g

-- ObjectiveContracts.Accepts
unfoldable pub accepts : ObjectiveContracts → Objective → Bool
accepts contracts g = accepts_class g (lookup contracts g.target_id)

abbrev pub contract_matches : Snapshot → Option ObjectiveContract → Bool
contract_matches s none = false
contract_matches s (some contract) = all_of (λ c. matches c s) contract.conditions

-- ObjectiveContracts.Matches
unfoldable pub contracts_match : ObjectiveContracts → Snapshot → Objective → Bool
contracts_match contracts s g =
    if not (is_known s.objective) || not (objective_eq s.objective.value g)
    then false
    else contract_matches s (lookup contracts g.target_id)

-- `result[i].TargetID < result[j].TargetID`
abbrev contract_before : ObjectiveContract → ObjectiveContract → Bool
contract_before a b = str_ltb a.target_id b.target_id

-- ObjectiveContracts.All
unfoldable pub all_contracts : ObjectiveContracts → List ObjectiveContract
all_contracts contracts = sort contract_before (map (λ entry. entry.1) contracts)
