-- ===== src/Kernel/Runtime/Apply/Outcome.antt =====
-- How an application can end, and what it has written by then.
use boatstack.Base.{◌≡◌, refl, ap, Option, true, List, [], ◌∷◌, ◌++◌, ◌⊎◌, inl, inr}
use boatstack.Kernel.Types.{Observation, ObjectiveBinding, ControlState, EffectFact, Receipt}
use boatstack.Kernel.Error.{
  Error, RecoveryReason, Result, ok, err, recovery_required, marshal_failed,
}
use boatstack.Kernel.Runtime.Resolve.Quiet.{clock-Quiet}
use boatstack.Kernel.Exec.{
  Keeps-lift, Keeps-wrapping, wrap_error, wrap_error-eq-err, wrap_error-eq-ok, Exec, lift, pure,
  wrapping,
}
use boatstack.Kernel.Codec.{content_hash-eq-err}
use boatstack.Kernel.Receipt.{validate_receipt}
use boatstack.Kernel.Ports.{Runtime}
use boatstack.Kernel.Runtime.Logged.{Write, Logged, logged, Ends, Ends-Quiet, Ends-write}
use boatstack.Kernel.Runtime.Apply.{
  Attempt, attempted, target_binding, target_state, commit_receipt, settle, is_recovery_required,
}

-- What is committed for an attempt: the target state, and the receipt of the step from the one
-- state to the other.
pub record Settles {W : Type 0} (runtime : Runtime W) (a : Attempt) (target : ControlState)
    (receipt : Receipt) : Type 0 where
  pub binding : Option ObjectiveBinding
  pub bound :
      target_binding runtime a.transition.objective_mutation a.objective a.state.objective_binding
      ≡ ok binding
  pub target_is : target ≡ target_state runtime a binding
  pub valid : validate_receipt runtime.codec receipt ≡ ok tt
  pub prior : receipt.prior_state_revision ≡ a.state.revision
  pub attempt : receipt.attempt_state_revision ≡ (attempted a).revision
  pub result : receipt.result_state_revision ≡ target.revision
  pub transition : receipt.transition_id ≡ a.transition.id
  pub prescription : receipt.prescription_id ≡ a.prescription.id
  pub objective : receipt.objective_binding ≡ binding
  pub capabilities : receipt.capabilities ≡ a.required

-- How it ends once the effect is verified, after the writes `begun`.
pub data Settlement {W : Type 0} (runtime : Runtime W) (a : Attempt) (begun : List Write)
    (r : Result Receipt) (log : List Write) : Type 0 where
  unsettled :
      (e : Error)
      → (is_recovery_required e ≡ true)
        ⊎ (target_binding runtime a.transition.objective_mutation a.objective
              a.state.objective_binding
            ≡ err e)
        ⊎ (e ≡ marshal_failed)
      → r ≡ err e
      → log ≡ begun
      → Settlement runtime a begun r log
  uncommitted :
      (e : Error) (target : ControlState) (receipt : Receipt)
      → Settles runtime a target receipt
      → r ≡ err (recovery_required (RecoveryReason.commit_failed e))
      → log ≡ begun ++ Write.commit_transition (attempted a).revision target receipt ∷ []
      → Settlement runtime a begun r log
  committed :
      (target : ControlState) (receipt : Receipt)
      → Settles runtime a target receipt
      → r ≡ ok receipt
      → log ≡ begun ++ Write.commit_transition (attempted a).revision target receipt ∷ []
      → Settlement runtime a begun r log

-- an error that was wrapped in a RecoveryRequiredError
pub recovery_of_wrapped :
    {A : Type 0} (k : Error → RecoveryReason) (r : Result A) (e : Error)
    → wrap_error (λ c. recovery_required (k c)) r ≡ err e
    → is_recovery_required e ≡ true
unfolding is_recovery_required
recovery_of_wrapped k (ok a) e h = cc
recovery_of_wrapped k (err c) e h =
    let (cause, _, is) = wrap_error-eq-err (λ c'. recovery_required (k c')) (err c) h in
    ap is_recovery_required is

module _ {W : Type 0} (runtime : Runtime W) (a : Attempt) (begun : List Write) where
  abbrev pub Settling : Exec (Logged W) Receipt → Type 0
  Settling = Ends (Settlement (logged runtime) a begun) begun

  commit-Settlement :
      (target : ControlState) (receipt : Receipt)
      → Settles (logged runtime) a target receipt
      → Settling (commit_receipt (logged runtime) a target receipt)
  unfolding commit_receipt wrapping pure
  commit-Settlement target receipt s =
      Ends-write (Write.commit_transition (attempted a).revision target receipt) _ _ (λ w. refl)
        (λ w e h.
          let (cause, _, is) =
            wrap_error-eq-err (λ c. recovery_required (RecoveryReason.commit_failed c)) _ h in
          uncommitted cause target receipt s (ap err is) refl)
        (λ w _ _. record { at = λ w' same. committed target receipt s refl same })

  pub settle-Settlement :
      (facts : List EffectFact) (result : Observation)
      → Settling (settle (logged runtime) a facts result)
  unfolding settle lift wrapping
  settle-Settlement facts result =
      Ends-Quiet _ _ (Keeps-lift _) (λ w e h. unsettled e (inr (inl h)) refl refl)
        λ w binding bound.
          Ends-Quiet _ _ (clock-Quiet runtime) (λ w e h. cc)
            λ w now _.
              Ends-Quiet _ _ (Keeps-lift _)
                (λ w e h. unsettled e (inr (inr (content_hash-eq-err runtime.codec _ h))) refl refl)
                λ w id _.
                  Ends-Quiet _ _ (Keeps-wrapping _ _ (Keeps-lift _))
                    (λ w e h.
                      unsettled e (inl (recovery_of_wrapped RecoveryReason.receipt_invalid _ e h))
                        refl refl)
                    λ w _ valid. commit-Settlement _ _ (record {
                      binding = binding;
                      bound = bound;
                      target_is = refl;
                      valid =
                          wrap_error-eq-ok
                            (λ c. recovery_required (RecoveryReason.receipt_invalid c)) _ valid;
                      prior = refl;
                      attempt = refl;
                      result = refl;
                      transition = refl;
                      prescription = refl;
                      objective = refl;
                      capabilities = refl;
                    })
