-- ===== src/Delivery/Supervisor/Guard.antt =====
-- boatstack/internal/softwaredelivery/supervisor/guard.go.
pub mod Safety
use boatstack.Base.{
  String, Bool, true, false, not, ◌&&◌, ◌||◌, ◌==◌, Option, none, some, [], ◌∷◌, if◌then◌else◌,
}
use boatstack.Kernel.Error.{Check, says, quoted, ok, ◌>>◌, refuse_if, succeeds}
use boatstack.Delivery.Model.Fact.{is_known}
use boatstack.Delivery.Model.Phase
use boatstack.Delivery.Model.Engagement
use boatstack.Delivery.Model.Observation.{Snapshot}
use boatstack.Delivery.Catalog.Transition.{Transition, TransitionId}
use boatstack.Delivery.Catalog.Registry.{Registry, managed_transition}
use boatstack.Delivery.Supervisor.IntentClass
use boatstack.Delivery.Supervisor.IntentClass.{IntentClass}

pub record CommandIntent : Type 0 where
  pub class : IntentClass
  pub operation : String
  pub fingerprint : String
  pub transition : TransitionId

-- CommandIntent.Validate
unfoldable pub validate_intent : CommandIntent → Check
validate_intent i = do
  refuse_if (i.fingerprint == "" || i.operation == "")
      (says "command intent requires operation and fingerprint" [])
  (if i.class == IntentClass.ordinary || i.class == IntentClass.destructive
      then refuse_if (not (i.transition == ""))
          (says "%s intent cannot name a managed transition" (quoted i.class ∷ []))
      else if i.class == IntentClass.managed_bypass
      then refuse_if (not (i.transition == ""))
          (says "managed-bypass transition must be resolved from the compiled control program" [])
      else refuse_if true (says "invalid command intent class %q" (quoted i.class ∷ [])))

pub record GuardDecision : Type 0 where
  pub allowed : Bool
  pub intent : CommandIntent
  pub required_transition : TransitionId
  pub reason : String

abbrev decide_on : CommandIntent → Bool → String → GuardDecision
decide_on intent allowed reason = record {
  allowed = allowed;
  intent = intent;
  required_transition = "";
  reason = reason;
}

-- the end of Guard, on the transition that manages the operation
abbrev guard_managed : Snapshot → CommandIntent → Transition → GuardDecision
guard_managed s intent t =
    let decision : Bool → String → GuardDecision = λ allowed reason. record {
      allowed = allowed;
      intent = record intent { transition = t.id };
      required_transition = t.id;
      reason = reason;
    } in
    if not (is_known s.engagement)
    then decision false "managed-effect engagement is unresolved"
    else if s.engagement.value == Engagement.command
        || s.engagement.value == Engagement.active
        || s.phase.value == Phase.recovery
    then decision false "managed effect must be requested through kernel admission"
    else decision true
        "Boatstack is dormant; direct non-destructive repository operation remains inert"

abbrev pub guard_bypass : Snapshot → CommandIntent → Option Transition → GuardDecision
guard_bypass s intent none =
    decide_on (record intent { class = IntentClass.ordinary }) true
      "operation is not managed by the compiled control program"
guard_bypass s intent (some t) = guard_managed s intent t

-- Supervisor.Guard
unfoldable pub guard : Registry → Snapshot → CommandIntent → GuardDecision
guard registry s intent =
    if not (succeeds (validate_intent intent)) || s.fingerprint == ""
    then decide_on intent false "command intent or canonical snapshot is invalid"
    else if intent.class == IntentClass.destructive
    then decide_on intent false
        "high-confidence destructive operation requires an explicit registered recovery or cleanup transition"
    else if intent.class == IntentClass.ordinary
    then decide_on intent true "ordinary repository operation is outside managed effect authority"
    else guard_bypass s intent (managed_transition registry intent.operation)
