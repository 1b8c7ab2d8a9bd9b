-- ===== src/Delivery/Model/FacetName.antt =====
-- `FacetName` of boatstack/internal/softwaredelivery/model/facet.go: a string type.
use Prim.Native.Char.{code}
use boatstack.Base.{
  ℕ, suc, String, Bool, true, false, ◌&&◌, ◌||◌, List, [], ◌∷◌, contains, leb, eqb, if◌then◌else◌,
}

abbrev pub FacetName : Type 0
FacetName = String

abbrev pub phase : FacetName
phase = "phase"

abbrev pub program : FacetName
program = "program"

abbrev pub topology : FacetName
topology = "topology"

abbrev pub engagement : FacetName
engagement = "engagement"

abbrev pub delivery : FacetName
delivery = "delivery"

abbrev pub workspace : FacetName
workspace = "workspace"

abbrev pub work_package : FacetName
work_package = "work-package"

abbrev pub plan : FacetName
plan = "plan"

abbrev pub configuration : FacetName
configuration = "configuration"

abbrev pub configuration_policy : FacetName
configuration_policy = "configuration-policy"

abbrev pub runtime : FacetName
runtime = "runtime"

abbrev pub publication : FacetName
publication = "publication"

abbrev pub verification : FacetName
verification = "verification"

abbrev pub recovery : FacetName
recovery = "recovery"

abbrev pub transaction : FacetName
transaction = "transaction"

abbrev pub recovery_info : FacetName
recovery_info = "recovery-info"

abbrev pub transaction_info : FacetName
transaction_info = "transaction-info"

abbrev pub terminal : FacetName
terminal = "terminal"

abbrev pub objective : FacetName
objective = "objective"

-- controllingFacets
abbrev pub controlling_facets : List FacetName
controlling_facets =
    phase ∷ program ∷ topology ∷ engagement ∷ delivery ∷ workspace ∷ work_package ∷ plan
    ∷ configuration ∷ configuration_policy ∷ runtime ∷ publication ∷ verification ∷ recovery
    ∷ transaction ∷ recovery_info ∷ transaction_info ∷ terminal ∷ objective ∷ []

-- controllingFacet
abbrev pub is_controlling : FacetName → Bool
is_controlling facet = contains controlling_facets facet

-- [a-z]
abbrev pub is_lower : ℕ → Bool
is_lower c = leb b'a' c && leb c b'z'

-- [a-z0-9]
abbrev pub is_lower_or_digit : ℕ → Bool
is_lower_or_digit c = is_lower c || leb b'0' c && leb c b'9'

-- [.-]
abbrev pub is_separator : ℕ → Bool
is_separator c = eqb c b'.' || eqb c b'-'

-- The rest of the pattern: whether the segment has begun, and how many separators were read.
scan : Bool → ℕ → String → Bool
scan begun separators String.[] = begun && leb 2 separators
scan begun separators (String.◌∷◌ c s) =
    let separated = is_separator (code c) in
    if separated
    then begun && scan false (suc separators) s
    else is_lower_or_digit (code c) && scan true separators s

-- namespacedFacet: ^[a-z][a-z0-9]*(?:[.-][a-z0-9]+){2,}$
unfoldable pub is_namespaced : FacetName → Bool
unfolding scan
is_namespaced String.[] = false
is_namespaced (String.◌∷◌ c s) = is_lower (code c) && scan true 0 s

-- FacetName.Valid
abbrev pub is_valid : FacetName → Bool
is_valid facet = is_controlling facet || is_namespaced facet
