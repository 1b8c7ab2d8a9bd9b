-- ===== src/Delivery/Supervisor/DecisionKind.antt =====
-- `DecisionKind` of boatstack/internal/softwaredelivery/supervisor/supervisor.go: a string type.
use boatstack.Base.{String}

abbrev pub DecisionKind : Type 0
DecisionKind = String

abbrev pub prescribed : DecisionKind
prescribed = "PRESCRIBED"

abbrev pub candidate : DecisionKind
candidate = "CANDIDATE"

abbrev pub terminal : DecisionKind
terminal = "TERMINAL"

abbrev pub frontier : DecisionKind
frontier = "FRONTIER"

abbrev pub blocked : DecisionKind
blocked = "BLOCKED"

abbrev pub refused : DecisionKind
refused = "REFUSED"

abbrev pub unresolved : DecisionKind
unresolved = "UNRESOLVED"
