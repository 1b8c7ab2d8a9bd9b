-- ===== src/Delivery/Catalog/Registry.antt =====
-- The registry of boatstack/internal/softwaredelivery/catalog/transition.go. A map is the list of
-- its entries, the last one first, with one entry for each key.
pub mod Maps
pub mod WellFormed
use boatstack.Base.{
  is_some, ℕ, suc, String, Bool, true, false, not, ◌&&◌, ◌==◌, Option, none, some, List, [], ◌∷◌,
  keep, if◌then◌else◌,
}
use boatstack.Base.Int.{ℤ, ltb_ℤ, eqb_ℤ}
use boatstack.Base.Text.{str_ltb}
use boatstack.Base.Sort.{sort}
use boatstack.Kernel.Error.{
  Check, Result, Error, says, says_of, quoted, counted, ok, err, ◌>>=◌, ◌>>◌, refuse_if,
}
use boatstack.Delivery.Ports.{Library}
use boatstack.Delivery.Model.Facet.{lookup}
use boatstack.Delivery.Model.Objective.{Objective}
use boatstack.Delivery.Model.Observation.{Snapshot}
use boatstack.Delivery.Catalog.EventClass
use boatstack.Delivery.Catalog.Transition.{Transition, TransitionId}
use boatstack.Delivery.Catalog.Evaluation.{controllable, rank, source_matches, supports_objective}
use boatstack.Delivery.Catalog.Validate.{validate_transition}

pub record Registry : Type 0 where
  pub ordered : List Transition
  pub by_id : List (TransitionId × Transition)
  pub managed_operation : List (String × TransitionId)

-- the `less` of the sort: by the rank of the class, then the priority, then the identity
abbrev pub transition_before : Transition → Transition → Bool
transition_before a b =
    if not (eqb_ℤ (rank a.selection_class) (rank b.selection_class))
    then ltb_ℤ (rank a.selection_class) (rank b.selection_class)
    else if not (eqb_ℤ a.priority b.priority)
    then ltb_ℤ a.priority b.priority
    else str_ltb a.id b.id

-- `if prior, exists := registry.managedOperation[operation]; exists`
abbrev pub claim_operation : TransitionId → String → Option TransitionId → Check
claim_operation id operation none = ok tt
claim_operation id operation (some prior) = err (
    says "managed operation %q is owned by both %q and %q"
      (quoted operation ∷ quoted prior ∷ quoted id ∷ []))

-- the loop over the managed operations of a transition
unfoldable pub claim_operations :
    TransitionId
    → List (String × TransitionId)
    → List String
    → Result (List (String × TransitionId))
claim_operations id owners [] = ok owners
claim_operations id owners (operation ∷ operations) = do
  claim_operation id operation (lookup owners operation)
  claim_operations id ((operation, id) ∷ owners) operations

abbrev pub RegistryMaps : Type 0
RegistryMaps = List (TransitionId × Transition) × List (String × TransitionId)

-- `fmt.Errorf("transition %d: %w", index, err)`
abbrev pub wrap_index : ℕ → Check → Check
wrap_index index (ok _) = ok tt
wrap_index index (err e) = err (says_of "transition %d: %w" (counted (ℤ.pos index) ∷ []) e)

-- the loop over the transitions, with the two maps made so far
unfoldable pub register : Library → ℕ → RegistryMaps → List Transition → Result RegistryMaps
unfolding claim_operations
register library index maps [] = ok maps
register library index (by_id, owners) (t ∷ transitions) = do
  wrap_index index (validate_transition library t)
  refuse_if (is_some (lookup by_id t.id)) (says "duplicate transition id %q" (quoted t.id ∷ []))
  claimed ← claim_operations t.id owners t.policy.managed_operations
  register library (suc index) ((t.id, t) ∷ by_id, claimed) transitions

-- `!ok || candidate.Class != EventRecovery`
abbrev pub is_no_recovery : Option Transition → Bool
is_no_recovery none = true
is_no_recovery (some candidate) = not (candidate.class == EventClass.recovery)

-- the loop over the references to recoveries
unfoldable pub check_recoveries : List (TransitionId × Transition) → List Transition → Check
check_recoveries by_id [] = ok tt
check_recoveries by_id (t ∷ transitions) = do
  refuse_if
      (not (t.interruption.recovery == "") && is_no_recovery (lookup by_id t.interruption.recovery))
      (says "transition %q references non-recovery transition %q"
        (quoted t.id ∷ quoted t.interruption.recovery ∷ []))
  check_recoveries by_id transitions

-- New
unfoldable pub new_registry : Library → List Transition → Result Registry
unfolding register check_recoveries
new_registry library transitions = do
  maps ← register library 0 ([], []) transitions
  check_recoveries maps.0 transitions
  ok (record {
    ordered = sort transition_before transitions;
    by_id = maps.0;
    managed_operation = maps.1;
  })

-- Registry.Lookup
unfoldable pub lookup_transition : Registry → TransitionId → Option Transition
lookup_transition r id = lookup r.by_id id

abbrev pub lookup_owner : Registry → Option TransitionId → Option Transition
lookup_owner r none = none
lookup_owner r (some id) = lookup r.by_id id

-- Registry.ManagedTransition
unfoldable pub managed_transition : Registry → String → Option Transition
unfolding lookup_transition
managed_transition r operation = lookup_owner r (lookup r.managed_operation operation)

-- Registry.Admissible
unfoldable pub admissible : Registry → Snapshot → Objective → List Transition
admissible r s g =
    keep (λ t. controllable t && source_matches t s && supports_objective t g) r.ordered
