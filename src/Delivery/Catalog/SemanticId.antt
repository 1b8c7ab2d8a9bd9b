-- ===== src/Delivery/Catalog/SemanticId.antt =====
-- `semanticID` of boatstack/internal/softwaredelivery/catalog/transition.go.
use Prim.Native.Char.{code}
use boatstack.Base.{String, Bool, true, false, ◌&&◌, ◌||◌, eqb}
use boatstack.Delivery.Model.FacetName.{is_lower, is_lower_or_digit, is_separator}

-- What was read last: nothing of a part, a character of one, or a separator.
pub data Scanned : Type 0 where
  nothing character separator : Scanned

-- Whether the text is the rest of the identifier; the flag is whether a slash may follow.
scan : Scanned → Bool → String → Bool
scan nothing slash String.[] = false
scan character slash String.[] = true
scan separator slash String.[] = false
scan nothing slash (String.◌∷◌ c s) = is_lower (code c) && scan character slash s
scan character slash (String.◌∷◌ c s) =
    is_lower_or_digit (code c) && scan character slash s
    || is_separator (code c) && scan separator slash s
    || eqb (code c) b'/' && slash && scan nothing false s
scan separator slash (String.◌∷◌ c s) = is_lower_or_digit (code c) && scan character slash s

-- ^[a-z][a-z0-9]*(?:[.-][a-z0-9]+)*(?:/[a-z][a-z0-9]*(?:[.-][a-z0-9]+)*)?$
unfoldable pub semantic_id : String → Bool
unfolding scan
semantic_id s = scan nothing true s
