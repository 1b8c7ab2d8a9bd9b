-- ===== src/Kernel/Error.antt =====
-- The errors of boatstack/kernel and the reasons of its decisions: one constructor for each
-- message, with what the message is formatted from. `says` is the error of any other package.
use boatstack.Base.Int.{ℤ}
use boatstack.Base.{String, Bool, true, false, List, ◌≡◌, refl, Option, none, some}

-- An argument of a format, by its verb.
pub data Argument : Type 0 where
  quoted : String → Argument  -- %q, or a text as it is
  listed : List String → Argument  -- %v
  counted : ℤ → Argument  -- %d

mutual
  pub data Error : Type 0 where
    nil_dereference : Error  -- a panic
    objective_incomplete objective_fingerprint_mismatch objective_binding_incomplete : Error
    program_identity_incomplete control_state_incomplete recovery_state_incomplete : Error
    capability_not_semantic : String → Error
    receipt_invalid_or_expired receipt_grants_nothing receipt_duplicated : String → Error
    freshness_incomplete freshness_changed : Error
    marshal_failed : Error
    transition_incomplete transition_needs_capabilities : String → Error
    transition_invalid_facet transition_invalid_recovery : String → String → Error
    transition_objective_mutation : String → Error
    in_transition : String → Error → Error
    not_semantic not_qualified duplicated : String → String → Error
    program_incomplete program_contract_fingerprint program_fingerprint_mismatch : Error
    program_duplicates recovery_must_preserve no_declared_recovery : String → Error
    recovers_unknown : String → String → Error
    cannot_recover_from : String → String → String → Error
    observation_incomplete observation_fingerprint_mismatch : Error
    -- any other error that a port returns
    port_failed : String → Error
    apply_refused : Reason → Error
    attempt_invalid attempt_did_not_begin : Error → Error
    -- StalePrescriptionError, RecoveryRequiredError
    stale : StaleReason → Error
    recovery_required : RecoveryReason → Error
    effects_missing effects_escape : Error
    receipt_identity_invalid receipt_incomplete receipt_without_effects : Error
    -- `fmt.Errorf` of a format and its arguments
    says : String → List Argument → Error
    -- one that wraps an error in the end, %w
    says_of : String → List Argument → Error → Error

  pub data StaleReason : Type 0 where
    content_identity_invalid identities_changed transition_changed transition_gone : StaleReason

  pub data RecoveryReason : Type 0 where
    operator_outcome_unknown effects_invalid observation_failed : Error → RecoveryReason
    verification_failed receipt_invalid commit_failed : Error → RecoveryReason

  -- The reason of a decision.
  pub data Reason : Type 0 where
    no_text : Reason  -- the empty string
    marked_state_established : Reason
    requested_not_admissible none_admissible none_selectable : Reason
    equally_preferred admitted_highest_priority : Reason
    capabilities_unavailable : List String → Reason
    control_state_invalid observation_invalid authority_invalid : Error → Reason
    instance_mismatch program_stale : Reason
    reason_says : String → List Argument → Reason

pub data Result {ℓ} (A : Type ℓ) : Type ℓ where
  ok : A → Result A
  err : Error → Result A

-- What a function returns whose only result is an error.
abbrev pub Check : Type 0
Check = Result Unit

infixl 5 ◌>>=◌ ◌>>◌
-- `if err != nil { return err }`
abbrev pub ◌>>=◌ {κ ℓ} :
    {Value : Type κ} {Next : Type ℓ} → Result Value → (Value → Result Next) → Result Next
err failure >>= next = err failure
ok value >>= next = next value

abbrev pub ◌>>◌ {ℓ} : {Next : Type ℓ} → Check → Result Next → Result Next
check >> next = check >>= λ _. next

-- `if refused { return err }`
abbrev pub refuse_if : Bool → Error → Check
refuse_if true e = err e
refuse_if false e = ok tt

abbrev pub succeeds {ℓ} : {A : Type ℓ} → Result A → Bool
succeeds (ok a) = true
succeeds (err e) = false

-- `err != nil` of a value that a library returns with no error of its own to report
abbrev pub from_option {ℓ} : {A : Type ℓ} → Error → Option A → Result A
from_option e none = err e
from_option e (some a) = ok a

-- Inversion of a chain that succeeded.
pub >>=-eq-ok {κ ℓ} :
    {Value : Type κ} {Next : Type ℓ} (first : Result Value) (next : Value → Result Next)
    {last : Next}
    → (first >>= next) ≡ ok last
    → (value : Value) × (first ≡ ok value) × (next value ≡ ok last)
>>=-eq-ok (err failure) next succeeded = cc
>>=-eq-ok (ok value) next succeeded = (value, refl, succeeded)

pub from_option-eq-ok {ℓ} :
    {A : Type ℓ} (e : Error) (o : Option A) {a : A} → from_option e o ≡ ok a → o ≡ some a
from_option-eq-ok e none h = cc
from_option-eq-ok e (some a) h = cc

pub refuse_if-eq-ok : (b : Bool) (e : Error) → refuse_if b e ≡ ok tt → b ≡ false
refuse_if-eq-ok true e h = cc
refuse_if-eq-ok false e h = refl

pub ok-injective {ℓ} : {A : Type ℓ} (a b : A) → ok a ≡ ok b → a ≡ b
ok-injective a b h = cc

-- A check behind another succeeded, and so did that.
pub check-then :
    {A : Type 0} (m : Check) (k : Result A) {a : A} → (m >> k) ≡ ok a → (m ≡ ok tt) × (k ≡ ok a)
check-then (ok _) k h = (refl, h)
check-then (err e) k h = cc

-- A guard before the rest succeeded, and so did that.
pub refuse_if-then :
    {A : Type 0} (b : Bool) (e : Error) (k : Result A) {a : A}
    → (refuse_if b e >> k) ≡ ok a
    → (b ≡ false) × (k ≡ ok a)
refuse_if-then true e k h = cc
refuse_if-then false e k h = (refl, h)
