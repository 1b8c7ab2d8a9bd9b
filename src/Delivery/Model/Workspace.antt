-- ===== src/Delivery/Model/Workspace.antt =====
-- `WorkspaceState` of boatstack/internal/softwaredelivery/model/state.go: a string type.
use boatstack.Base.{String, Bool, List, [], ◌∷◌, contains}

abbrev pub WorkspaceState : Type 0
WorkspaceState = String

abbrev pub absent : WorkspaceState
absent = "absent"

abbrev pub cut : WorkspaceState
cut = "cut"

abbrev pub active : WorkspaceState
active = "active"

abbrev pub published : WorkspaceState
published = "published"

abbrev pub landed : WorkspaceState
landed = "landed"

abbrev pub abandoned : WorkspaceState
abandoned = "abandoned"

abbrev pub attention_required : WorkspaceState
attention_required = "attention-required"

-- WorkspaceState.Valid: the named values
abbrev pub values : List WorkspaceState
values = absent ∷ cut ∷ active ∷ published ∷ landed ∷ abandoned ∷ attention_required ∷ []

abbrev pub is_valid : WorkspaceState → Bool
is_valid value = contains values value
