-- ===== src/Delivery/Catalog/AuthorityClass.antt =====
-- `AuthorityClass` of boatstack/internal/softwaredelivery/catalog/transition.go: a string type.
use boatstack.Base.{String, Bool, List, [], ◌∷◌, contains}

abbrev pub AuthorityClass : Type 0
AuthorityClass = String

abbrev pub none : AuthorityClass
none = "none"

abbrev pub repository : AuthorityClass
repository = "repository-policy"

abbrev pub human : AuthorityClass
human = "human"

abbrev pub autonomy : AuthorityClass
autonomy = "autonomy"

abbrev pub provider : AuthorityClass
provider = "external-provider"

-- AuthorityClass.Valid: the named values
abbrev pub values : List AuthorityClass
values = none ∷ repository ∷ human ∷ autonomy ∷ provider ∷ []

abbrev pub is_valid : AuthorityClass → Bool
is_valid value = contains values value
