-- ===== src/Kernel/State.antt =====
-- Supervisory state, boatstack/kernel/types.go.
use boatstack.Base.{len, ◌||◌, not, Option, none, some, eqb, ◌==◌}
use boatstack.Kernel.Types.{ProgramIdentity, ControlState, RecoveryState}
use boatstack.Kernel.Identifier.{semantic_id, qualified_semantic_id}
use boatstack.Kernel.Objective.{validate_optional_binding}
use boatstack.Kernel.Error.{
  Check, ok, program_identity_incomplete, control_state_incomplete, recovery_state_incomplete, ◌>>◌,
  refuse_if,
}

-- ProgramIdentity.Validate
unfoldable pub validate_identity : ProgramIdentity → Check
validate_identity p =
    refuse_if (not (semantic_id p.id) || p.version == "" || not (eqb (len p.fingerprint) 64))
      program_identity_incomplete

-- the condition on `s.Recovery` in ControlState.Validate
unfoldable pub validate_recovery : Option RecoveryState → Check
validate_recovery none = ok tt
validate_recovery (some r) =
    refuse_if
      (r.prescription_id == "" || not (qualified_semantic_id r.transition_id) || r.reason == "")
      recovery_state_incomplete

-- ControlState.Validate
unfoldable pub validate_state : ControlState → Check
unfolding validate_identity validate_recovery
validate_state s = do
  refuse_if (not (semantic_id s.instance_id) || s.mode == "" || eqb s.revision 0)
      control_state_incomplete
  validate_identity s.program
  validate_optional_binding s.objective_binding
  validate_recovery s.recovery
