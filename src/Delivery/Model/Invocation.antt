-- ===== src/Delivery/Model/Invocation.antt =====
-- boatstack/internal/softwaredelivery/model/identity.go. SHA-256 and paths are Go's.
use Prim.Native.String.{◌++◌}
use boatstack.Base.{String, slice, Bool, not, ◌&&◌, ◌||◌, ◌==◌, [], ◌∷◌}
use boatstack.Kernel.Error.{Check, Result, says, quoted, ok, ◌>>◌, refuse_if}
use boatstack.Delivery.Model.Topology
use boatstack.Delivery.Model.Topology.{Topology}

pub record InvocationContext : Type 0 where
  pub repository_id : String
  pub git_common_id : String
  pub worktree_id : String
  pub ref : String
  pub controller_id : String
  pub invoking_path : String
  pub runtime_version : String
  pub runtime_path : String
  pub runtime_fingerprint : String
  pub topology : Topology
  pub host : String
  pub correlation : String

-- what an effectful operation has to name besides
abbrev lacks_exact_runtime : (String → Bool) → InvocationContext → Bool
lacks_exact_runtime path_is_abs c =
    c.worktree_id == ""
    || c.ref == ""
    || c.runtime_version == ""
    || c.runtime_path == ""
    || c.runtime_fingerprint == ""
    || not (path_is_abs c.runtime_path)

-- InvocationContext.Validate; the path test is `filepath.IsAbs`.
unfoldable pub validate_invocation : (String → Bool) → Bool → InvocationContext → Check
validate_invocation path_is_abs effectful c = do
  refuse_if (not (Topology.is_valid c.topology))
      (says "invocation: invalid topology %q" (quoted c.topology ∷ []))
  refuse_if (c.repository_id == "" || c.git_common_id == "" || c.controller_id == "")
      (says "invocation: repository, git-common, and controller identity are required" [])
  refuse_if (c.invoking_path == "" || not (path_is_abs c.invoking_path))
      (says "invocation: invoking path must be explicit and absolute" [])
  refuse_if (c.host == "" || c.correlation == "")
      (says "invocation: host and correlation identity are required" [])
  refuse_if (effectful && lacks_exact_runtime path_is_abs c) (
      says
        "invocation: effectful operation requires worktree, ref, and exact runtime version, location, and fingerprint"
        [])

-- DeriveWorktreeID; the functions are `filepath.IsAbs`, `filepath.Clean` and the hexadecimal SHA-256.
unfoldable pub derive_worktree_id :
    (String → Bool) → (String → String) → (String → String) → String → String → Result String
derive_worktree_id path_is_abs path_clean sha256_hex git_common_id repository_root = do
  refuse_if (git_common_id == "" || repository_root == "" || not (path_is_abs repository_root))
      (says "worktree identity requires git-common identity and an absolute repository root" [])
  ok (slice (sha256_hex (git_common_id ++ "\0" ++ path_clean repository_root)) 0 12)
