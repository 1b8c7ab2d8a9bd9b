-- ===== src/Delivery/Model/Plan.antt =====
-- `PlanState` of boatstack/internal/softwaredelivery/model/state.go: a string type.
use boatstack.Base.{String, Bool, List, [], ◌∷◌, contains}

abbrev pub PlanState : Type 0
PlanState = String

abbrev pub absent : PlanState
absent = "absent"

abbrev pub draft : PlanState
draft = "draft"

abbrev pub valid : PlanState
valid = "valid"

abbrev pub approved : PlanState
approved = "approved"

abbrev pub locked : PlanState
locked = "locked"

abbrev pub stale : PlanState
stale = "stale"

abbrev pub invalid : PlanState
invalid = "invalid"

abbrev pub amendment_required : PlanState
amendment_required = "amendment-required"

-- PlanState.Valid: the named values
abbrev pub values : List PlanState
values = absent ∷ draft ∷ valid ∷ approved ∷ locked ∷ stale ∷ invalid ∷ amendment_required ∷ []

abbrev pub is_valid : PlanState → Bool
is_valid value = contains values value
