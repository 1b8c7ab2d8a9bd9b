-- ===== src/Delivery/Model/Canonicalize/Facts.antt =====
-- The controlling facts of a snapshot that Canonicalize returns.
use boatstack.Base.{String, Bool, true, not, ◌&&◌, eq_iff, ◌≡◌, arith, All}
use boatstack.Kernel.Error.{Error, ok, refuse_if, refuse_if-eq-ok}
use boatstack.Delivery.Model.Fact.{Fact, is_known, validate_fact}
use boatstack.Delivery.Model.FactStatus
use boatstack.Delivery.Model.Phase
use boatstack.Delivery.Model.ProgramState
use boatstack.Delivery.Model.Engagement
use boatstack.Delivery.Model.DeliveryState
use boatstack.Delivery.Model.Workspace
use boatstack.Delivery.Model.WorkPackage
use boatstack.Delivery.Model.Plan
use boatstack.Delivery.Model.Configuration
use boatstack.Delivery.Model.RuntimeState
use boatstack.Delivery.Model.Publication
use boatstack.Delivery.Model.Verification
use boatstack.Delivery.Model.Recovery
use boatstack.Delivery.Model.TransactionState
use boatstack.Delivery.Model.Terminal
use boatstack.Delivery.Model.Observation.{Observation}
use boatstack.Delivery.Model.Canonicalize.{fact_checks, value_checks}

-- Fact.Validate accepts each controlling fact.
pub record HasValidFacts (o : Observation) : Type 0 where
  pub program : validate_fact "program" o.program ≡ ok tt
  pub phase : validate_fact "phase" o.phase ≡ ok tt
  pub engagement : validate_fact "engagement" o.engagement ≡ ok tt
  pub delivery : validate_fact "delivery" o.delivery ≡ ok tt
  pub workspace : validate_fact "workspace" o.workspace ≡ ok tt
  pub work_package : validate_fact "work_package" o.work_package ≡ ok tt
  pub plan : validate_fact "plan" o.plan ≡ ok tt
  pub configuration : validate_fact "configuration" o.configuration ≡ ok tt
  pub configuration_policy : validate_fact "configuration_policy" o.configuration_policy ≡ ok tt
  pub runtime : validate_fact "runtime" o.runtime ≡ ok tt
  pub publication : validate_fact "publication" o.publication ≡ ok tt
  pub verification : validate_fact "verification" o.verification ≡ ok tt
  pub recovery : validate_fact "recovery" o.recovery ≡ ok tt
  pub transaction : validate_fact "transaction" o.transaction ≡ ok tt
  pub recovery_info : validate_fact "recovery_info" o.recovery_info ≡ ok tt
  pub transaction_info : validate_fact "transaction_info" o.transaction_info ≡ ok tt
  pub terminal : validate_fact "terminal" o.terminal ≡ ok tt
  pub objective : validate_fact "objective" o.objective ≡ ok tt

pub fact_checks-HasValidFacts :
    (o : Observation) → All (λ c. c ≡ ok tt) (fact_checks o) → HasValidFacts o
fact_checks-HasValidFacts o
      (
        program_ok,
        (
          phase_ok,
          (
            engagement_ok,
            (
              delivery_ok,
              (
                workspace_ok,
                (
                  work_package_ok,
                  (
                    plan_ok,
                    (
                      configuration_ok,
                      (
                        configuration_policy_ok,
                        (
                          runtime_ok,
                          (
                            publication_ok,
                            (
                              verification_ok,
                              (
                                recovery_ok,
                                (
                                  transaction_ok,
                                  (
                                    recovery_info_ok,
                                    (transaction_info_ok, (terminal_ok, (objective_ok, _))),
                                  ),
                                ),
                              ),
                            ),
                          ),
                        ),
                      ),
                    ),
                  ),
                ),
              ),
            ),
          ),
        ),
      ) =
    record {
      program = program_ok;
      phase = phase_ok;
      engagement = engagement_ok;
      delivery = delivery_ok;
      workspace = workspace_ok;
      work_package = work_package_ok;
      plan = plan_ok;
      configuration = configuration_ok;
      configuration_policy = configuration_policy_ok;
      runtime = runtime_ok;
      publication = publication_ok;
      verification = verification_ok;
      recovery = recovery_ok;
      transaction = transaction_ok;
      recovery_info = recovery_info_ok;
      transaction_info = transaction_info_ok;
      terminal = terminal_ok;
      objective = objective_ok;
    }

-- A fact that is known has one of the values that the test admits.
abbrev pub IsAdmitted : (String → Bool) → Fact String → Type 0
IsAdmitted test fact = fact.status ≡ FactStatus.known → test fact.value ≡ true

-- Each of them that is known has a named value of its type.
pub record HasValidValues (o : Observation) : Type 0 where
  pub phase : IsAdmitted Phase.is_valid o.phase
  pub program : IsAdmitted ProgramState.is_valid o.program
  pub engagement : IsAdmitted Engagement.is_valid o.engagement
  pub delivery : IsAdmitted DeliveryState.is_valid o.delivery
  pub workspace : IsAdmitted Workspace.is_valid o.workspace
  pub work_package : IsAdmitted WorkPackage.is_valid o.work_package
  pub plan : IsAdmitted Plan.is_valid o.plan
  pub configuration : IsAdmitted Configuration.is_valid o.configuration
  pub runtime : IsAdmitted RuntimeState.is_valid o.runtime
  pub publication : IsAdmitted Publication.is_valid o.publication
  pub verification : IsAdmitted Verification.is_valid o.verification
  pub recovery : IsAdmitted Recovery.is_valid o.recovery
  pub transaction : IsAdmitted TransactionState.is_valid o.transaction
  pub terminal : IsAdmitted Terminal.is_valid o.terminal

admitted :
    (test : String → Bool) (fact : Fact String) (e : Error)
    → refuse_if (is_known fact && not (test fact.value)) e ≡ ok tt
    → IsAdmitted test fact
admitted test fact e h known = ground (
  arith,
  refuse_if-eq-ok (is_known fact && not (test fact.value)) e h,
  eq_iff fact.status FactStatus.known,
)

pub value_checks-HasValidValues :
    (o : Observation) → All (λ c. c ≡ ok tt) (value_checks o) → HasValidValues o
value_checks-HasValidValues o
      (
        phase_ok,
        (
          program_ok,
          (
            engagement_ok,
            (
              delivery_ok,
              (
                workspace_ok,
                (
                  work_package_ok,
                  (
                    plan_ok,
                    (
                      configuration_ok,
                      (
                        runtime_ok,
                        (
                          publication_ok,
                          (verification_ok, (recovery_ok, (transaction_ok, (terminal_ok, _)))),
                        ),
                      ),
                    ),
                  ),
                ),
              ),
            ),
          ),
        ),
      ) =
    record {
      phase = admitted Phase.is_valid o.phase _ phase_ok;
      program = admitted ProgramState.is_valid o.program _ program_ok;
      engagement = admitted Engagement.is_valid o.engagement _ engagement_ok;
      delivery = admitted DeliveryState.is_valid o.delivery _ delivery_ok;
      workspace = admitted Workspace.is_valid o.workspace _ workspace_ok;
      work_package = admitted WorkPackage.is_valid o.work_package _ work_package_ok;
      plan = admitted Plan.is_valid o.plan _ plan_ok;
      configuration = admitted Configuration.is_valid o.configuration _ configuration_ok;
      runtime = admitted RuntimeState.is_valid o.runtime _ runtime_ok;
      publication = admitted Publication.is_valid o.publication _ publication_ok;
      verification = admitted Verification.is_valid o.verification _ verification_ok;
      recovery = admitted Recovery.is_valid o.recovery _ recovery_ok;
      transaction = admitted TransactionState.is_valid o.transaction _ transaction_ok;
      terminal = admitted Terminal.is_valid o.terminal _ terminal_ok;
    }
