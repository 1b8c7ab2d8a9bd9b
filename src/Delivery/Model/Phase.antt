-- ===== src/Delivery/Model/Phase.antt =====
-- `ProtocolPhase` of boatstack/internal/softwaredelivery/model/state.go: a string type.
use boatstack.Base.{String, Bool, ◌||◌, ◌==◌, List, [], ◌∷◌, contains}

abbrev pub ProtocolPhase : Type 0
ProtocolPhase = String

abbrev pub dormant : ProtocolPhase
dormant = "DORMANT"

abbrev pub observed : ProtocolPhase
observed = "OBSERVED"

abbrev pub prescribed : ProtocolPhase
prescribed = "PRESCRIBED"

abbrev pub admitted : ProtocolPhase
admitted = "ADMITTED"

abbrev pub executing_local : ProtocolPhase
executing_local = "EXECUTING_LOCAL"

abbrev pub executing_external : ProtocolPhase
executing_external = "EXECUTING_EXTERNAL"

abbrev pub verifying : ProtocolPhase
verifying = "VERIFYING"

abbrev pub active : ProtocolPhase
active = "ACTIVE"

abbrev pub recovery : ProtocolPhase
recovery = "RECOVERY"

abbrev pub unresolved : ProtocolPhase
unresolved = "UNRESOLVED"

abbrev pub frontier : ProtocolPhase
frontier = "FRONTIER"

abbrev pub terminal : ProtocolPhase
terminal = "TERMINAL"

abbrev pub abandoned : ProtocolPhase
abandoned = "ABANDONED"

-- ProtocolPhase.Valid: the named values
abbrev pub values : List ProtocolPhase
values =
    dormant ∷ observed ∷ prescribed ∷ admitted ∷ executing_local ∷ executing_external ∷ verifying
    ∷ active ∷ recovery ∷ unresolved ∷ frontier ∷ terminal ∷ abandoned ∷ []

abbrev pub is_valid : ProtocolPhase → Bool
is_valid value = contains values value

-- ProtocolPhase.IsCompletionTarget
abbrev pub is_completion_target : ProtocolPhase → Bool
is_completion_target p = p == frontier || p == terminal || p == abandoned
