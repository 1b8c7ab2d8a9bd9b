-- ===== src/Delivery/Model/TransactionState.antt =====
-- `TransactionState` of boatstack/internal/softwaredelivery/model/state.go: a string type.
use boatstack.Base.{String, Bool, List, [], ◌∷◌, contains}

abbrev pub TransactionState : Type 0
TransactionState = String

abbrev pub none : TransactionState
none = "none"

abbrev pub staged : TransactionState
staged = "staged"

abbrev pub local_applied : TransactionState
local_applied = "local-applied"

abbrev pub external_uncertain : TransactionState
external_uncertain = "external-uncertain"

abbrev pub verifying : TransactionState
verifying = "verifying"

abbrev pub committed : TransactionState
committed = "committed"

abbrev pub compensating : TransactionState
compensating = "compensating"

-- TransactionState.Valid: the named values
abbrev pub values : List TransactionState
values =
    none ∷ staged ∷ local_applied ∷ external_uncertain ∷ verifying ∷ committed ∷ compensating ∷ []

abbrev pub is_valid : TransactionState → Bool
is_valid value = contains values value
