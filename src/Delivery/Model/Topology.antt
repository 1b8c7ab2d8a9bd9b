-- ===== src/Delivery/Model/Topology.antt =====
-- `Topology` of boatstack/internal/softwaredelivery/model/identity.go: a string type.
use boatstack.Base.{String, Bool, List, [], ◌∷◌, contains}

abbrev pub Topology : Type 0
Topology = String

abbrev pub embedded : Topology
embedded = "embedded"

abbrev pub detached : Topology
detached = "detached"

abbrev pub hybrid : Topology
hybrid = "hybrid"

-- Topology.Valid: the named values
abbrev pub values : List Topology
values = embedded ∷ detached ∷ hybrid ∷ []

abbrev pub is_valid : Topology → Bool
is_valid value = contains values value
