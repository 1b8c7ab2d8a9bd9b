-- ===== src/Delivery/Model/StateFacets.antt =====
-- NormalizeStateFacets and UnionStateFacets of
-- boatstack/internal/softwaredelivery/model/state_facet.go.
pub mod Normal
use boatstack.Base.{
  String, Bool, false, not, ◌==◌, Option, none, some, List, [], ◌∷◌, ◌++◌, contains, if◌then◌else◌,
}
use boatstack.Base.Text.{str_ltb}
use boatstack.Base.Sort.{sort}
use boatstack.Kernel.Error.{Check, Result, says, quoted, ok, ◌>>◌, refuse_if}
use boatstack.Delivery.Model.StateFacet
use boatstack.Delivery.Model.StateFacet.{StateFacet}

-- `index > 0 && result[index-1] == facet`
abbrev pub repeats : Option StateFacet → StateFacet → Bool
repeats none facet = false
repeats (some previous) facet = previous == facet

-- the loop over the sorted facets, with the one before
unfoldable pub check_state_facets : String → Option StateFacet → List StateFacet → Check
check_state_facets name previous [] = ok tt
check_state_facets name previous (facet ∷ facets) = do
  refuse_if (not (StateFacet.is_valid facet))
      (says "%s contains invalid state facet %q" (quoted name ∷ quoted facet ∷ []))
  refuse_if (repeats previous facet)
      (says "%s duplicates state facet %q" (quoted name ∷ quoted facet ∷ []))
  check_state_facets name (some facet) facets

-- NormalizeStateFacets
unfoldable pub normalize_state_facets : String → List StateFacet → Result (List StateFacet)
unfolding check_state_facets
normalize_state_facets name facets =
    check_state_facets name none (sort str_ltb facets) >> ok (sort str_ltb facets)

-- The keys of a set that a list of values was added to.
abbrev pub add_key : String → List String → List String
add_key value set = if contains set value then set else value ∷ set

abbrev pub add_valid : (String → Bool) → List String → List String → List String
add_valid is_valid [] set = set
add_valid is_valid (value ∷ values) set =
    add_valid is_valid values (if is_valid value then add_key value set else set)

abbrev pub concat : List (List String) → List String
concat [] = []
concat (group ∷ groups) = group ++ concat groups

-- UnionStateFacets
unfoldable pub union_state_facets : List (List StateFacet) → List StateFacet
union_state_facets groups = sort str_ltb (add_valid StateFacet.is_valid (concat groups) [])
