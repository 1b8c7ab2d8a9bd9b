-- ===== src/Delivery/Model/Canonicalize/Consistent.antt =====
-- What the facts of a snapshot that Canonicalize returns say together.
use boatstack.Base.{
  String, Bool, true, false, not, ◌&&◌, ◌==◌, eq_iff, eqb_iff, ◌⊎◌, ◌≡◌, ◌≢◌, arith, All,
}
use boatstack.Kernel.Error.{Error, ok, refuse_if, refuse_if-eq-ok, succeeds}
use boatstack.Delivery.Model.Fact.{Fact}
use boatstack.Delivery.Model.FactStatus
use boatstack.Delivery.Model.Phase
use boatstack.Delivery.Model.Engagement
use boatstack.Delivery.Model.DeliveryState
use boatstack.Delivery.Model.Workspace
use boatstack.Delivery.Model.Publication
use boatstack.Delivery.Model.Recovery
use boatstack.Delivery.Model.TransactionState
use boatstack.Delivery.Model.Terminal
use boatstack.Delivery.Model.Contexts.{validate_recovery_context, validate_transaction_context}
use boatstack.Delivery.Model.Objective.{validate_objective}
use boatstack.Delivery.Model.Observation.{Observation}
use boatstack.Delivery.Model.Canonicalize.{
  has_other_value, has_value, lacks_objective, lacks_recovery_context, lacks_transaction_context,
  relation_checks,
}

-- A fact says a value.
abbrev pub Says : Fact String → String → Type 0
Says fact value = (fact.status ≡ FactStatus.known) × (fact.value ≡ value)

has_value-Says : (f : Fact String) (v : String) → Says f v → has_value f v ≡ true
has_value-Says f v (known, is) = ground (arith, eq_iff f.status FactStatus.known, eq_iff f.value v)

other-Says : (f : Fact String) (v w : String) → Says f v → v ≢ w → has_other_value f w ≡ true
other-Says f v w (known, is) n = ground (arith, eq_iff f.status FactStatus.known, eq_iff f.value w)

-- The context of a recovery is known and valid.
abbrev pub HasRecoveryContext : Observation → Type 0
HasRecoveryContext o =
    (o.recovery_info.status ≡ FactStatus.known)
    × (succeeds (validate_recovery_context o.recovery_info.value) ≡ true)

abbrev pub HasTransactionContext : Observation → Type 0
HasTransactionContext o =
    (o.transaction_info.status ≡ FactStatus.known)
    × (succeeds (validate_transaction_context o.transaction_info.value) ≡ true)

abbrev pub HasObjective : Observation → Type 0
HasObjective o =
    (o.objective.status ≡ FactStatus.known)
    × (succeeds (validate_objective o.objective.value) ≡ true)

-- The facts of an observation agree with each other.
pub record IsConsistent (o : Observation) : Type 0 where
  pub is_timed : o.observed_at ≢ 0
  pub recovery_phase :
      Says o.phase Phase.recovery → HasRecoveryContext o × ¬ (Says o.recovery Recovery.none)
  pub recovery_state : (v : String) → Says o.recovery v → v ≢ Recovery.none → HasRecoveryContext o
  pub transaction_state :
      (v : String) → Says o.transaction v → v ≢ TransactionState.none → HasTransactionContext o
  pub established :
      Says o.terminal Terminal.established
      → HasObjective o
        × ((v : String) → Says o.phase v → (v ≡ Phase.terminal) ⊎ (v ≡ Phase.abandoned))
        × ((v : String)
            → Says o.delivery v
            → (v ≡ DeliveryState.terminal) ⊎ (v ≡ DeliveryState.discarded))
  pub landed :
      Says o.workspace Workspace.landed
      → (v : String) → Says o.publication v
      → v ≡ Publication.merged
  pub active : Says o.phase Phase.active → ¬ (Says o.engagement Engagement.dormant)

module _ (o : Observation) where
  has_recovery_context : lacks_recovery_context o ≡ false → HasRecoveryContext o
  has_recovery_context h =
      (ground (arith, eq_iff o.recovery_info.status FactStatus.known), ground arith)

  has_transaction_context : lacks_transaction_context o ≡ false → HasTransactionContext o
  has_transaction_context h =
      (ground (arith, eq_iff o.transaction_info.status FactStatus.known), ground arith)

  has_objective : lacks_objective o ≡ false → HasObjective o
  has_objective h = (ground (arith, eq_iff o.objective.status FactStatus.known), ground arith)

both_true : (a b : Bool) → a && b ≡ false → a ≡ true → b ≡ false
both_true a b h k = ground arith

one_of :
    (f : Fact String) (v a b : String)
    → Says f v
    → has_other_value f a && not (f.value == b) ≡ false
    → (v ≡ a) ⊎ (v ≡ b)
one_of f v a b (known, is) h =
    ground (arith, eq_iff f.status FactStatus.known, eq_iff f.value a, eq_iff f.value b)

only : (f : Fact String) (v a : String) → Says f v → has_other_value f a ≡ false → v ≡ a
only f v a (known, is) h = ground (arith, eq_iff f.status FactStatus.known, eq_iff f.value a)

no : (b : Bool) (e : Error) → refuse_if b e ≡ ok tt → b ≡ false
no b e h = refuse_if-eq-ok b e h

unlike : {b : Bool} → b ≡ false → ¬ (b ≡ true)
unlike h k = cc

pub relation_checks-IsConsistent :
    (o : Observation) → All (λ c. c ≡ ok tt) (relation_checks o) → IsConsistent o
relation_checks-IsConsistent o
      (
        timed,
        (
          named,
          (
            context,
            (state, (transaction, (phase, (objective, (delivery, (landed, (active, _))))))),
          ),
        ),
      ) =
    record {
      is_timed = λ e. ground (arith, no _ _ timed, eqb_iff o.observed_at 0);
      recovery_phase = λ s. (
        has_recovery_context o (both_true _ _ (no _ _ context) (has_value-Says o.phase _ s)),
        λ k. absurd (
            unlike (both_true _ _ (no _ _ named) (has_value-Says o.phase _ s))
              (has_value-Says o.recovery _ k)),
      );
      recovery_state = λ v s n.
          has_recovery_context o (both_true _ _ (no _ _ state) (other-Says o.recovery v _ s n));
      transaction_state = λ v s n.
          has_transaction_context o
            (both_true _ _ (no _ _ transaction) (other-Says o.transaction v _ s n));
      established = λ s. (
        has_objective o (both_true _ _ (no _ _ objective) (has_value-Says o.terminal _ s)),
        λ v k.
            one_of o.phase v _ _ k (both_true _ _ (no _ _ phase) (has_value-Says o.terminal _ s)),
        λ v k.
            one_of o.delivery v _ _ k
              (both_true _ _ (no _ _ delivery) (has_value-Says o.terminal _ s)),
      );
      landed = λ s v k.
          only o.publication v _ k (both_true _ _ (no _ _ landed) (has_value-Says o.workspace _ s));
      active = λ s k.
          unlike (both_true _ _ (no _ _ active) (has_value-Says o.phase _ s))
            (has_value-Says o.engagement _ k);
    }
