-- ===== src/Delivery/Model/ProgramState.antt =====
-- `ProgramState` of boatstack/internal/softwaredelivery/model/state.go: a string type.
use boatstack.Base.{String, Bool, List, [], ◌∷◌, contains}

abbrev pub ProgramState : Type 0
ProgramState = String

abbrev pub unbound : ProgramState
unbound = "unbound"

abbrev pub current : ProgramState
current = "current"

abbrev pub drift : ProgramState
drift = "drift"

-- ProgramState.Valid: the named values
abbrev pub values : List ProgramState
values = unbound ∷ current ∷ drift ∷ []

abbrev pub is_valid : ProgramState → Bool
is_valid value = contains values value
