-- ===== src/Kernel/Freshness.antt =====
-- boatstack/kernel/freshness.go.
use boatstack.Base.{ℕ, String, len, Bool, not, ◌&&◌, ◌||◌, ◌==◌, eqb}
use boatstack.Kernel.Types.{Freshness}
use boatstack.Kernel.Error.{Check, freshness_incomplete, freshness_changed, ◌>>◌, refuse_if}

-- Freshness.Validate
unfoldable pub validate_freshness : Freshness → Check
validate_freshness f =
    refuse_if
      (f.expected_instance_id == ""
        || eqb f.expected_state_revision 0
        || not (eqb (len f.expected_program_fingerprint) 64)
        || not (eqb (len f.expected_snapshot_fingerprint) 64)
        || not (eqb (len f.expected_objective_binding_fingerprint) 64)
        || f.authority_fingerprint == "")
      freshness_incomplete

-- NewFreshness, of the record that its six arguments make: the value comes back with the error.
unfoldable pub new_freshness : String → ℕ → String → String → String → String → Freshness × Check
unfolding validate_freshness
new_freshness instance revision program snapshot binding authority =
    let value : Freshness = record {
      expected_instance_id = instance;
      expected_state_revision = revision;
      expected_program_fingerprint = program;
      expected_snapshot_fingerprint = snapshot;
      expected_objective_binding_fingerprint = binding;
      authority_fingerprint = authority;
    } in
    (value, validate_freshness value)

-- `f != current` on the comparable struct
abbrev pub freshness_eq : Freshness → Freshness → Bool
freshness_eq f g =
    f.expected_instance_id == g.expected_instance_id
    && eqb f.expected_state_revision g.expected_state_revision
    && f.expected_program_fingerprint == g.expected_program_fingerprint
    && f.expected_snapshot_fingerprint == g.expected_snapshot_fingerprint
    && f.expected_objective_binding_fingerprint == g.expected_objective_binding_fingerprint
    && f.authority_fingerprint == g.authority_fingerprint

-- Freshness.Check
unfoldable pub check_freshness : Freshness → Freshness → Check
unfolding validate_freshness
check_freshness f current = do
  validate_freshness f
  validate_freshness current
  refuse_if (not (freshness_eq f current)) freshness_changed
