-- ===== src/Delivery/Model/RuntimeState.antt =====
-- `RuntimeState` of boatstack/internal/softwaredelivery/model/state.go: a string type.
use boatstack.Base.{String, Bool, List, [], ◌∷◌, contains}

abbrev pub RuntimeState : Type 0
RuntimeState = String

abbrev pub absent : RuntimeState
absent = "absent"

abbrev pub hydrating : RuntimeState
hydrating = "hydrating"

abbrev pub verified : RuntimeState
verified = "verified"

abbrev pub stale : RuntimeState
stale = "stale"

abbrev pub invalid : RuntimeState
invalid = "invalid"

abbrev pub conflicting : RuntimeState
conflicting = "conflicting"

abbrev pub wrong_source : RuntimeState
wrong_source = "wrong-source"

abbrev pub partially_published : RuntimeState
partially_published = "partially-published"

-- RuntimeState.Valid: the named values
abbrev pub values : List RuntimeState
values =
    absent ∷ hydrating ∷ verified ∷ stale ∷ invalid ∷ conflicting ∷ wrong_source
    ∷ partially_published ∷ []

abbrev pub is_valid : RuntimeState → Bool
is_valid value = contains values value
