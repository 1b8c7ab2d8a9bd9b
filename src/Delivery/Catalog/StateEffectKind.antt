-- ===== src/Delivery/Catalog/StateEffectKind.antt =====
-- `StateEffectKind` of boatstack/internal/softwaredelivery/catalog/transition.go: a string type.
use boatstack.Base.{String}

abbrev pub StateEffectKind : Type 0
StateEffectKind = String

abbrev pub assignments : StateEffectKind
assignments = "assignments"

abbrev pub native : StateEffectKind
native = "native"
