-- ===== src/Delivery/Model/Terminal.antt =====
-- `TerminalStatus` of boatstack/internal/softwaredelivery/model/state.go: a string type.
use boatstack.Base.{String, Bool, List, [], ◌∷◌, contains}

abbrev pub TerminalStatus : Type 0
TerminalStatus = String

abbrev pub nonterminal : TerminalStatus
nonterminal = "nonterminal"

abbrev pub established : TerminalStatus
established = "established"

abbrev pub stale : TerminalStatus
stale = "stale"

abbrev pub unknown : TerminalStatus
unknown = "unknown"

abbrev pub conflicting : TerminalStatus
conflicting = "conflicting"

-- TerminalStatus.Valid: the named values
abbrev pub values : List TerminalStatus
values = nonterminal ∷ established ∷ stale ∷ unknown ∷ conflicting ∷ []

abbrev pub is_valid : TerminalStatus → Bool
is_valid value = contains values value
