-- ===== src/Delivery/Model/StateFacet.antt =====
-- `StateFacet` of boatstack/internal/softwaredelivery/model/state_facet.go: a string type.
use boatstack.Base.{String, Bool, List, [], ◌∷◌, contains}

abbrev pub StateFacet : Type 0
StateFacet = String

abbrev pub installation : StateFacet
installation = "installation"

abbrev pub program : StateFacet
program = "program"

abbrev pub control : StateFacet
control = "control"

abbrev pub product : StateFacet
product = "product"

-- StateFacet.Valid: the named values
abbrev pub values : List StateFacet
values = installation ∷ program ∷ control ∷ product ∷ []

abbrev pub is_valid : StateFacet → Bool
is_valid value = contains values value
