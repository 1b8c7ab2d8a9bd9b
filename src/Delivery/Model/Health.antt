-- ===== src/Delivery/Model/Health.antt =====
-- boatstack/internal/softwaredelivery/model/health.go.
use boatstack.Base.{Bool, not, ◌&&◌, ◌||◌, ◌==◌}
use boatstack.Delivery.Model.Fact.{is_known}
use boatstack.Delivery.Model.Phase
use boatstack.Delivery.Model.RuntimeState
use boatstack.Delivery.Model.Recovery
use boatstack.Delivery.Model.TransactionState
use boatstack.Delivery.Model.Observation.{Snapshot}

pub record OperationalHealth : Type 0 where
  pub runtime_verified : Bool
  pub recovery_required : Bool

-- ProjectOperationalHealth
unfoldable pub project_operational_health : Snapshot → OperationalHealth
project_operational_health s = record {
  runtime_verified = is_known s.runtime && s.runtime.value == RuntimeState.verified;
  recovery_required =
      s.phase.value == Phase.recovery
      || not (s.recovery.value == Recovery.none)
      || not (s.transaction.value == TransactionState.none);
}
