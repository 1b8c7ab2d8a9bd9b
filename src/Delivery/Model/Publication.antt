-- ===== src/Delivery/Model/Publication.antt =====
-- `PublicationState` of boatstack/internal/softwaredelivery/model/state.go: a string type.
use boatstack.Base.{String, Bool, List, [], ◌∷◌, contains}

abbrev pub PublicationState : Type 0
PublicationState = String

abbrev pub none : PublicationState
none = "none"

abbrev pub candidate : PublicationState
candidate = "candidate"

abbrev pub opened : PublicationState
opened = "open"

abbrev pub closed_unmerged : PublicationState
closed_unmerged = "closed-unmerged"

abbrev pub merged : PublicationState
merged = "merged"

abbrev pub unavailable : PublicationState
unavailable = "unavailable"

abbrev pub conflicting : PublicationState
conflicting = "conflicting"

abbrev pub published_not_landed : PublicationState
published_not_landed = "published-not-landed"

-- PublicationState.Valid: the named values
abbrev pub values : List PublicationState
values =
    none ∷ candidate ∷ opened ∷ closed_unmerged ∷ merged ∷ unavailable ∷ conflicting
    ∷ published_not_landed ∷ []

abbrev pub is_valid : PublicationState → Bool
is_valid value = contains values value
