-- ===== src/Delivery/Model/Engagement.antt =====
-- `EngagementState` of boatstack/internal/softwaredelivery/model/state.go: a string type.
use boatstack.Base.{String, Bool, List, [], ◌∷◌, contains}

abbrev pub EngagementState : Type 0
EngagementState = String

abbrev pub dormant : EngagementState
dormant = "dormant"

abbrev pub command : EngagementState
command = "command"

abbrev pub active : EngagementState
active = "active"

abbrev pub stale : EngagementState
stale = "stale"

abbrev pub conflicting : EngagementState
conflicting = "conflicting"

abbrev pub invalid : EngagementState
invalid = "invalid"

-- EngagementState.Valid: the named values
abbrev pub values : List EngagementState
values = dormant ∷ command ∷ active ∷ stale ∷ conflicting ∷ invalid ∷ []

abbrev pub is_valid : EngagementState → Bool
is_valid value = contains values value
