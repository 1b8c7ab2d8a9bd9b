-- ===== src/Delivery/Model/Verification.antt =====
-- `VerificationState` of boatstack/internal/softwaredelivery/model/state.go: a string type.
use boatstack.Base.{String, Bool, List, [], ◌∷◌, contains}

abbrev pub VerificationState : Type 0
VerificationState = String

abbrev pub unverified : VerificationState
unverified = "unverified"

abbrev pub current : VerificationState
current = "current"

abbrev pub stale : VerificationState
stale = "stale"

abbrev pub failed : VerificationState
failed = "failed"

abbrev pub unresolved : VerificationState
unresolved = "unresolved"

-- VerificationState.Valid: the named values
abbrev pub values : List VerificationState
values = unverified ∷ current ∷ stale ∷ failed ∷ unresolved ∷ []

abbrev pub is_valid : VerificationState → Bool
is_valid value = contains values value
