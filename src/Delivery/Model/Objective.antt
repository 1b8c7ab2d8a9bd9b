-- ===== src/Delivery/Model/Objective.antt =====
-- boatstack/internal/softwaredelivery/model/objective.go. `safeObjectiveIdentity` is the same
-- regular expression as the kernel's semantic identifier.
use boatstack.Base.{same_flag, String, Bool, not, ◌&&◌, ◌||◌, ◌==◌, [], ◌∷◌, if◌then◌else◌}
use boatstack.Kernel.Identifier.{semantic_id}
use boatstack.Kernel.Error.{Check, says, quoted, ◌>>◌, refuse_if}

abbrev pub TargetId : Type 0
TargetId = String

-- TargetID.Valid
unfoldable pub is_valid_target : TargetId → Bool
is_valid_target target = semantic_id target

pub record Objective : Type 0 where
  pub id : String
  pub target_id : TargetId
  pub trusted_class : TargetId
  pub delivery_id : String
  pub evidence_fingerprint : String
  pub frontier_is_stop : Bool

-- Objective.Validate
unfoldable pub validate_objective : Objective → Check
unfolding is_valid_target
validate_objective g = do
  refuse_if (not (semantic_id g.id) || not (semantic_id g.delivery_id))
      (says "objective: id and delivery identity must be safe semantic segments" [])
  refuse_if
      (not (is_valid_target g.target_id)
        || (not (g.trusted_class == "") && not (is_valid_target g.trusted_class)))
      (says "objective: invalid target %q or trusted class %q"
        (quoted g.target_id ∷ quoted g.trusted_class ∷ []))

-- Objective.TrustedObjectiveClass
abbrev pub trusted_objective_class : Objective → TargetId
trusted_objective_class g = if not (g.trusted_class == "") then g.trusted_class else g.target_id

-- `==` of the comparable struct
abbrev pub objective_eq : Objective → Objective → Bool
objective_eq g h =
    g.id == h.id
    && g.target_id == h.target_id
    && g.trusted_class == h.trusted_class
    && g.delivery_id == h.delivery_id
    && g.evidence_fingerprint == h.evidence_fingerprint
    && same_flag g.frontier_is_stop h.frontier_is_stop
