-- ===== src/Kernel/Capability.antt =====
-- Capabilities: `normalizeCapabilities` of boatstack/kernel/types.go, and `missingCapabilities` of
-- runtime.go. A set is the list of its values; Go visits it in no fixed order, and sorts after.
pub mod Normal
use boatstack.Base.{not, List, [], ◌∷◌, contains, if◌then◌else◌}
use boatstack.Base.Text.{str_ltb}
use boatstack.Base.Sort.{sort}
use boatstack.Kernel.Types.{Capability}
use boatstack.Kernel.Identifier.{semantic_id}
use boatstack.Kernel.Error.{Check, Result, ok, capability_not_semantic, ◌>>=◌, ◌>>◌, refuse_if}

-- Capability.Validate
unfoldable pub validate_capability : Capability → Check
validate_capability c = refuse_if (not (semantic_id c)) (capability_not_semantic c)

-- the loop over `values`: the set of the values seen
collect_capabilities : List Capability → List Capability → Result (List Capability)
unfolding validate_capability
collect_capabilities seen [] = ok seen
collect_capabilities seen (value ∷ values) = do
  validate_capability value
  collect_capabilities (if contains seen value then seen else value ∷ seen) values

-- normalizeCapabilities
unfoldable pub normalize_capabilities : List Capability → Result (List Capability)
unfolding collect_capabilities
normalize_capabilities values = do seen ← collect_capabilities [] values; ok (sort str_ltb seen)
