-- ===== src/Delivery/Supervisor/IntentClass.antt =====
-- `IntentClass` of boatstack/internal/softwaredelivery/supervisor/guard.go: a string type.
use boatstack.Base.{String}

abbrev pub IntentClass : Type 0
IntentClass = String

abbrev pub ordinary : IntentClass
ordinary = "ordinary"

abbrev pub managed_bypass : IntentClass
managed_bypass = "managed-bypass"

abbrev pub destructive : IntentClass
destructive = "destructive"
