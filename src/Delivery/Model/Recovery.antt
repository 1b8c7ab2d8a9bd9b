-- ===== src/Delivery/Model/Recovery.antt =====
-- `RecoveryState` of boatstack/internal/softwaredelivery/model/state.go: a string type.
use boatstack.Base.{String, Bool, List, [], ◌∷◌, contains}

abbrev pub RecoveryState : Type 0
RecoveryState = String

abbrev pub none : RecoveryState
none = "none"

abbrev pub resumable : RecoveryState
resumable = "resumable"

abbrev pub rollback : RecoveryState
rollback = "rollback"

abbrev pub compensation : RecoveryState
compensation = "compensation"

abbrev pub reconcile : RecoveryState
reconcile = "reconcile"

abbrev pub escalated : RecoveryState
escalated = "escalated"

-- RecoveryState.Valid: the named values
abbrev pub values : List RecoveryState
values = none ∷ resumable ∷ rollback ∷ compensation ∷ reconcile ∷ escalated ∷ []

abbrev pub is_valid : RecoveryState → Bool
is_valid value = contains values value
