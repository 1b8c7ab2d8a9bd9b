-- ===== src/Delivery/Model/FactStatus.antt =====
-- `FactStatus` of boatstack/internal/softwaredelivery/model/fact.go: a string type.
use boatstack.Base.{String, Bool, List, [], ◌∷◌, contains}

abbrev pub FactStatus : Type 0
FactStatus = String

abbrev pub known : FactStatus
known = "known"

abbrev pub absent : FactStatus
absent = "absent"

abbrev pub unknown : FactStatus
unknown = "unknown"

abbrev pub stale : FactStatus
stale = "stale"

abbrev pub ambiguous : FactStatus
ambiguous = "ambiguous"

abbrev pub conflicting : FactStatus
conflicting = "conflicting"

-- FactStatus.Valid: the named values
abbrev pub values : List FactStatus
values = known ∷ absent ∷ unknown ∷ stale ∷ ambiguous ∷ conflicting ∷ []

abbrev pub is_valid : FactStatus → Bool
is_valid value = contains values value
