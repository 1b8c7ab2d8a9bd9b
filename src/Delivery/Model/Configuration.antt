-- ===== src/Delivery/Model/Configuration.antt =====
-- `ConfigurationState` of boatstack/internal/softwaredelivery/model/state.go: a string type.
use boatstack.Base.{String, Bool, List, [], ◌∷◌, contains}

abbrev pub ConfigurationState : Type 0
ConfigurationState = String

abbrev pub verified : ConfigurationState
verified = "verified"

abbrev pub stale : ConfigurationState
stale = "stale"

abbrev pub divergent : ConfigurationState
divergent = "divergent"

abbrev pub conflicting : ConfigurationState
conflicting = "conflicting"

abbrev pub unsupported : ConfigurationState
unsupported = "unsupported"

-- ConfigurationState.Valid: the named values
abbrev pub values : List ConfigurationState
values = verified ∷ stale ∷ divergent ∷ conflicting ∷ unsupported ∷ []

abbrev pub is_valid : ConfigurationState → Bool
is_valid value = contains values value
