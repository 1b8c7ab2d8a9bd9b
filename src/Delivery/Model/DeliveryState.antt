-- ===== src/Delivery/Model/DeliveryState.antt =====
-- `DeliveryState` of boatstack/internal/softwaredelivery/model/state.go: a string type.
use boatstack.Base.{String, Bool, List, [], ◌∷◌, contains}

abbrev pub DeliveryState : Type 0
DeliveryState = String

abbrev pub uninitialized : DeliveryState
uninitialized = "uninitialized"

abbrev pub planning : DeliveryState
planning = "planning"

abbrev pub approved : DeliveryState
approved = "approved"

abbrev pub active : DeliveryState
active = "active"

abbrev pub gates_passed : DeliveryState
gates_passed = "gates-passed"

abbrev pub published : DeliveryState
published = "published"

abbrev pub amendment : DeliveryState
amendment = "amendment"

abbrev pub invalid : DeliveryState
invalid = "invalid"

abbrev pub recovery : DeliveryState
recovery = "recovery"

abbrev pub discarded : DeliveryState
discarded = "discarded"

abbrev pub terminal : DeliveryState
terminal = "terminal"

-- DeliveryState.Valid: the named values
abbrev pub values : List DeliveryState
values =
    uninitialized ∷ planning ∷ approved ∷ active ∷ gates_passed ∷ published ∷ amendment ∷ invalid
    ∷ recovery ∷ discarded ∷ terminal ∷ []

abbrev pub is_valid : DeliveryState → Bool
is_valid value = contains values value
