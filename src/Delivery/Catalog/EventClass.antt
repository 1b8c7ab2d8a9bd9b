-- ===== src/Delivery/Catalog/EventClass.antt =====
-- `EventClass` of boatstack/internal/softwaredelivery/catalog/transition.go: a string type.
use boatstack.Base.{String, Bool, List, [], ◌∷◌, contains}

abbrev pub EventClass : Type 0
EventClass = String

abbrev pub owned_local : EventClass
owned_local = "owned-local"

abbrev pub owned_external : EventClass
owned_external = "owned-external"

abbrev pub authority : EventClass
authority = "authority"

abbrev pub observed_external : EventClass
observed_external = "observed-external"

abbrev pub recovery : EventClass
recovery = "recovery"

-- EventClass.Valid: the named values
abbrev pub values : List EventClass
values = owned_local ∷ owned_external ∷ authority ∷ observed_external ∷ recovery ∷ []

abbrev pub is_valid : EventClass → Bool
is_valid value = contains values value
