-- ===== src/Kernel/Runtime/Apply/Admission.antt =====
-- What an attempt has passed before it is begun.
use boatstack.Base.{◌≡◌, refl, subst, some, arith, Option-cases, inl, inr, eq_iff}
use boatstack.Kernel.Types.{Prescription}
use boatstack.Kernel.Trace.{DecisionKind}
use boatstack.Kernel.Error.{ok, from_option-eq-ok, ok-injective, attempt_invalid}
use boatstack.Kernel.Exec.{lift, pure, wrapping, wrap_error-eq-ok, bind-eq-ok}
use boatstack.Kernel.State.{validate_state}
use boatstack.Kernel.Program.Compile.{find_transition}
use boatstack.Kernel.Ports.{Runtime, ApplyRequest}
use boatstack.Kernel.Prescription.{validate_current}
use boatstack.Kernel.Runtime.{Resolution, required_capabilities}
use boatstack.Kernel.Runtime.Resolve.{resolve}
use boatstack.Kernel.Runtime.Apply.{
  Reading, Attempt, attempted, read_current, admit, prepare_attempt, same_prescription,
}

-- The attempt passed every check of the application.
pub record Admitted {W : Type 0} (runtime : Runtime W) (request : ApplyRequest) (a : Attempt)
    : Type 0 where
  pub requested : a.prescription ≡ request.prescription
  pub current :
      validate_current runtime.codec a.prescription a.state a.observation a.authority ≡ ok tt
  pub before : W
  pub resolution : Resolution
  pub resolved :
      (resolve runtime a.state a.observation request.resolve_request before).0 ≡ ok resolution
  pub fresh : Prescription
  pub prescribes : resolution.prescription ≡ some fresh
  pub decided : resolution.decision.kind ≡ DecisionKind.prescribed
  pub same_identity : a.prescription.id ≡ fresh.id
  pub known : find_transition runtime.program a.prescription.transition_id ≡ some a.transition
  pub required : required_capabilities runtime.ports a.transition ≡ ok a.required
  pub valid : validate_state (attempted a) ≡ ok tt

same_prescription-eq-ok :
    {W : Type 0} (runtime : Runtime W) (p : Prescription) (r : Resolution)
    → same_prescription runtime p r ≡ ok tt
    → (fresh : Prescription) × (r.prescription ≡ some fresh)
      × (r.decision.kind ≡ DecisionKind.prescribed)
      × (p.id ≡ fresh.id)
unfolding same_prescription
same_prescription-eq-ok runtime p r h = elim (Option-cases r.prescription) [
  | inl e ↦ absurd (ground arith)
  | inr (fresh, e) ↦ (fresh, e, ground arith, ground (arith, eq_iff p.id fresh.id))
]

module _ {W : Type 0} (runtime : Runtime W) (request : ApplyRequest) where
  abbrev IsCurrent : Reading → Type 0
  IsCurrent r =
      validate_current runtime.codec request.prescription r.state r.observation r.authority ≡ ok tt

  read_current-IsCurrent :
      (w : W) (r : Reading) → (read_current runtime request w).0 ≡ ok r → IsCurrent r
  unfolding read_current lift pure
  read_current-IsCurrent w r h =
      let (state, _, h₁) = bind-eq-ok (runtime.ports.load request.instance_id) _ w r h in
      let (observation, _, h₂) = bind-eq-ok (runtime.ports.observe request.instance_id) _ _ r h₁ in
      let (now, _, h₃) = bind-eq-ok _ _ _ r h₂ in
      let (authority, _, h₄) = bind-eq-ok _ _ _ r h₃ in
      let (_, current, h₅) = bind-eq-ok _ _ _ r h₄ in subst IsCurrent (ok-injective _ r h₅) current

  admit-Admitted :
      (w : W) (reading : Reading) (a : Attempt)
      → IsCurrent reading
      → (admit runtime request reading w).0 ≡ ok a
      → Admitted runtime request a
  unfolding admit lift pure wrapping
  admit-Admitted w reading a current h =
      let (resolution, resolved, h₁) =
        bind-eq-ok (resolve runtime reading.state reading.observation request.resolve_request) _ w a
          h in
      let (_, agrees, h₂) = bind-eq-ok _ _ _ a h₁ in
      let (fresh, prescribes, decided, same) =
        same_prescription-eq-ok runtime request.prescription resolution agrees in
      let (transition, known, h₃) = bind-eq-ok _ _ _ a h₂ in
      let (required, granted, h₄) = bind-eq-ok _ _ _ a h₃ in
      let (_, valid, h₅) = bind-eq-ok _ _ _ a h₄ in
      subst (Admitted runtime request) (ok-injective _ a h₅) (record {
        requested = refl;
        current = current;
        before = w;
        resolution = resolution;
        resolved = resolved;
        fresh = fresh;
        prescribes = prescribes;
        decided = decided;
        same_identity = same;
        known = from_option-eq-ok _ _ known;
        required = granted;
        valid = wrap_error-eq-ok attempt_invalid _ valid;
      })

  -- An attempt that is begun has passed every check.
  pub prepare_attempt-Admitted :
      (w : W) (a : Attempt)
      → (prepare_attempt runtime request w).0 ≡ ok a
      → Admitted runtime request a
  unfolding prepare_attempt
  prepare_attempt-Admitted w a h =
      let (reading, read, admitted) = bind-eq-ok (read_current runtime request) _ w a h in
      admit-Admitted _ reading a (read_current-IsCurrent w reading read) admitted
