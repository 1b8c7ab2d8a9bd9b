-- ===== src/Delivery/Model/WorkPackage.antt =====
-- `WorkPackageState` of boatstack/internal/softwaredelivery/model/state.go: a string type.
use boatstack.Base.{String, Bool, List, [], ◌∷◌, contains}

abbrev pub WorkPackageState : Type 0
WorkPackageState = String

abbrev pub absent : WorkPackageState
absent = "absent"

abbrev pub valid : WorkPackageState
valid = "valid"

abbrev pub approved : WorkPackageState
approved = "approved"

-- WorkPackageState.Valid: the named values
abbrev pub values : List WorkPackageState
values = absent ∷ valid ∷ approved ∷ []

abbrev pub is_valid : WorkPackageState → Bool
is_valid value = contains values value
