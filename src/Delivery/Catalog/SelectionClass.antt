-- ===== src/Delivery/Catalog/SelectionClass.antt =====
-- `SelectionClass` of boatstack/internal/softwaredelivery/catalog/transition.go: a string type.
use boatstack.Base.{String, Bool, List, [], ◌∷◌, contains}

abbrev pub SelectionClass : Type 0
SelectionClass = String

abbrev pub system_recovery : SelectionClass
system_recovery = "SYSTEM_RECOVERY"

abbrev pub program_recovery : SelectionClass
program_recovery = "PROGRAM_RECOVERY"

abbrev pub extension_recovery : SelectionClass
extension_recovery = "EXTENSION_RECOVERY"

abbrev pub objective_required : SelectionClass
objective_required = "OBJECTIVE_REQUIRED"

abbrev pub program_progress : SelectionClass
program_progress = "PROGRAM_PROGRESS"

abbrev pub explicit_only : SelectionClass
explicit_only = "EXPLICIT_ONLY"

abbrev pub observed_external : SelectionClass
observed_external = "OBSERVED_EXTERNAL"

-- SelectionClass.Valid: the named values
abbrev pub values : List SelectionClass
values =
    system_recovery ∷ program_recovery ∷ extension_recovery ∷ objective_required ∷ program_progress
    ∷ explicit_only ∷ observed_external ∷ []

abbrev pub is_valid : SelectionClass → Bool
is_valid value = contains values value
