-- ===== src/Delivery/Catalog/OriginKind.antt =====
-- `OriginKind` of boatstack/internal/softwaredelivery/catalog/transition.go: a string type.
use boatstack.Base.{String, Bool, List, [], ◌∷◌, contains}

abbrev pub OriginKind : Type 0
OriginKind = String

abbrev pub core_system : OriginKind
core_system = "core-system"

abbrev pub control_program : OriginKind
control_program = "control-program"

abbrev pub extension : OriginKind
extension = "extension"

-- OriginKind.Valid: the named values
abbrev pub values : List OriginKind
values = core_system ∷ control_program ∷ extension ∷ []

abbrev pub is_valid : OriginKind → Bool
is_valid value = contains values value
