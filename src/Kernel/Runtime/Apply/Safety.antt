-- ===== src/Kernel/Runtime/Apply/Safety.antt =====
-- Every way in which an application can end.
use boatstack.Base.{◌≡◌, refl, ap, true, List, [], ◌∷◌, String}
use boatstack.Base.Sort.{sort}
use boatstack.Kernel.Types.{Observation, EffectFact, Receipt}
use boatstack.Kernel.Error.{
  Error, RecoveryReason, Result, ok, err, recovery_required, attempt_did_not_begin,
}
use boatstack.Kernel.Exec.{
  Exec, Keeps-lift, Keeps-wrapping, wrap_error, wrap_error-eq-err, wrap_error-eq-ok, lift, wrapping,
  finally,
}
use boatstack.Kernel.Receipt.{validate_effects, fact_before}
use boatstack.Kernel.Ports.{Runtime, ApplyRequest}
use boatstack.Kernel.Runtime.Logged.{Write, Logged, logged, Ends, Ends-Quiet, Ends-write}
use boatstack.Kernel.Runtime.Resolve.Quiet.{observe-Quiet}
use boatstack.Kernel.Runtime.Apply.{
  Attempt, attempted, operation_of, evaluation_of, settle, carry_out, apply_locked, apply,
  is_recovery_required,
}
use boatstack.Kernel.Runtime.Apply.Admission.{Admitted, prepare_attempt-Admitted}
use boatstack.Kernel.Runtime.Apply.Outcome.{Settlement, settle-Settlement, recovery_of_wrapped}
use boatstack.Kernel.Runtime.Apply.Quiet.{prepare_attempt-Quiet}

-- the log after the attempt has begun, and after the operator has been called
abbrev pub begun : Attempt → List Write
begun a = Write.begin_effect a.state.revision (attempted a) ∷ []

abbrev pub ran : String → Attempt → List Write
ran instance a =
    Write.begin_effect a.state.revision (attempted a) ∷ Write.execute (operation_of instance a) ∷ []

-- The operator's effect is made of facts that its transition owns, and the domain has verified it.
pub record Verified {W : Type 0} (runtime : Runtime W) (a : Attempt) : Type 0 where
  pub effect : List EffectFact
  pub owned : validate_effects a.transition effect ≡ ok tt
  pub result : Observation
  pub after : W
  pub accepted :
      (runtime.ports.verify (evaluation_of a) (sort fact_before effect) result after).0 ≡ ok tt

pub data Outcome {W : Type 0} (runtime : Runtime W) (request : ApplyRequest) (r : Result Receipt)
    (log : List Write) : Type 0 where
  refused : (e : Error) → r ≡ err e → log ≡ [] → Outcome runtime request r log
  not_begun :
      (a : Attempt) (e : Error)
      → Admitted runtime request a
      → r ≡ err (attempt_did_not_begin e)
      → log ≡ begun a
      → Outcome runtime request r log
  unresolved :
      (a : Attempt) (e : Error)
      → Admitted runtime request a
      → is_recovery_required e ≡ true
      → r ≡ err e
      → log ≡ ran request.instance_id a
      → Outcome runtime request r log
  verified :
      (a : Attempt)
      → Admitted runtime request a
      → Verified runtime a
      → Settlement runtime a (ran request.instance_id a) r log
      → Outcome runtime request r log

module _ {W : Type 0} (runtime : Runtime W) (request : ApplyRequest) where
  abbrev Ending : List Write → Exec (Logged W) Receipt → Type 0
  Ending = Ends (Outcome (logged runtime) request)

  carry_out-Outcome :
      (a : Attempt)
      → Admitted (logged runtime) request a
      → Ending (begun a) (carry_out (logged runtime) request.instance_id a)
  unfolding carry_out lift wrapping
  carry_out-Outcome a admitted =
      Ends-write (Write.execute (operation_of request.instance_id a)) _ _ (λ w. refl)
        (λ w e h. broken RecoveryReason.operator_outcome_unknown _ e h)
        λ w effect _.
          Ends-Quiet _ _ (Keeps-wrapping _ _ (Keeps-lift _))
            (λ w e h. broken RecoveryReason.effects_invalid _ e h)
            λ w _ owned.
              Ends-Quiet _ _ (Keeps-wrapping _ _ (observe-Quiet runtime request.instance_id))
                (λ w e h. broken RecoveryReason.observation_failed _ e h)
                λ w result _.
                  Ends-Quiet _ _ (Keeps-wrapping _ _ (record { at = λ w. refl }))
                    (λ w e h. broken RecoveryReason.verification_failed _ e h)
                    λ w _ accepted.
                      settled effect result w
                        (wrap_error-eq-ok
                          (λ c. recovery_required (RecoveryReason.effects_invalid c)) _ owned)
                        (wrap_error-eq-ok
                          (λ c. recovery_required (RecoveryReason.verification_failed c)) _
                          accepted)
    where
      broken :
          {A : Type 0} (k : Error → RecoveryReason) (r : Result A) (e : Error)
          → wrap_error (λ c. recovery_required (k c)) r ≡ err e
          → Outcome (logged runtime) request (err e) (ran request.instance_id a)
      broken k r e h = unresolved a e admitted (recovery_of_wrapped k r e h) refl refl

      settled :
          (effect : List EffectFact) (result : Observation) (w : Logged W)
          → validate_effects a.transition effect ≡ ok tt
          → ((logged runtime).ports.verify (evaluation_of a) (sort fact_before effect) result w).0
            ≡ ok tt
          → Ending
              (ran request.instance_id a)
              (settle (logged runtime) a (sort fact_before effect) result)
      settled effect result w owned accepted = record {
        at = λ w' same.
            verified a admitted
              (record {
                effect = effect;
                owned = owned;
                result = result;
                after = w;
                accepted = accepted;
              })
              ((settle-Settlement runtime a (ran request.instance_id a) (sort fact_before effect)
                  result).at
                w' same);
      }

  apply_locked-Outcome : Ending [] (apply_locked (logged runtime) request)
  unfolding apply_locked wrapping
  apply_locked-Outcome =
      Ends-Quiet _ _ (prepare_attempt-Quiet runtime request) (λ w e h. refused e refl refl)
        λ w a prepared.
          let admitted = prepare_attempt-Admitted (logged runtime) request w a prepared in
          Ends-write (Write.begin_effect a.state.revision (attempted a)) _ _ (λ w. refl)
            (λ w e h.
              let (cause, _, is) = wrap_error-eq-err attempt_did_not_begin _ h in
              not_begun a cause admitted (ap err is) refl)
            (λ w _ _. carry_out-Outcome a admitted)

  unlocked-Outcome : Ending [] (
      finally
        ((logged runtime).ports.unlock request.instance_id)
        (apply_locked (logged runtime) request))
  unfolding finally
  unlocked-Outcome = record { at = λ w same. apply_locked-Outcome.at w same }

-- Whatever the ports answer, an application ends in one of these ways: it is refused and has
-- written nothing; or, its prescription being current, freshly resolved again and admitted, the
-- store could not begin the effect; or the effect was begun and run once and the error asks for
-- recovery; or the effect was verified and then the receipt was committed once, or its commit
-- failed with an error that asks for recovery, or it was not committed and the error asks for
-- recovery, is that of the objective's binding, or that of encoding the receipt.
pub apply-Outcome :
    {W : Type 0} (runtime : Runtime W) (request : ApplyRequest) (w : W)
    → let (r, after) = apply (logged runtime) request (record { log = []; world = w }) in
      Outcome (logged runtime) request r after.log
unfolding apply
apply-Outcome runtime request w =
    (Ends-Quiet _ _ (record { at = λ w. refl }) (λ w e h. refused e refl refl)
        (λ w _ _. unlocked-Outcome runtime request)).at
      (record { log = []; world = w }) refl
