-- ===== src/Delivery/Model/Contexts.antt =====
-- The composite facts of boatstack/internal/softwaredelivery/model/state.go: the policy of the
-- configuration, and the contexts of a recovery and of a transaction.
pub mod Policy
use boatstack.Base.{String, Bool, not, ◌&&◌, ◌||◌, ◌==◌, List, [], ◌∷◌, contains, is_empty}
use boatstack.Base.Int.{ℤ, ltb_ℤ}
use boatstack.Base.Text.{str_ltb}
use boatstack.Base.Sort.{sort}
use boatstack.Kernel.Error.{Check, says, quoted, ok, ◌>>◌, refuse_if}
use boatstack.Delivery.Model.Phase
use boatstack.Delivery.Model.Phase.{ProtocolPhase}

pub record ConfigurationPolicy : Type 0 where
  pub plan_approval : String
  pub independent_review_for_high_risk : Bool
  pub high_risk_change : Bool
  pub visual_evidence : String
  pub external_effect_authority : String
  pub hosts : List String

-- ConfigurationPolicy.Canonical
unfoldable pub canonical : ConfigurationPolicy → ConfigurationPolicy
canonical p = record p { hosts = sort str_ltb p.hosts }

-- the loop over the hosts, with those seen before
unfoldable pub check_hosts : List String → List String → Check
check_hosts seen [] = ok tt
check_hosts seen (host ∷ hosts) = do
  refuse_if (host == "" || contains seen host)
      (says "configuration policy has empty or duplicate host %q" (quoted host ∷ []))
  check_hosts (host ∷ seen) hosts

-- ConfigurationPolicy.Validate
unfoldable pub validate_policy : ConfigurationPolicy → Check
unfolding check_hosts
validate_policy p = do
  refuse_if (not (p.plan_approval == "human") && not (p.plan_approval == "human-or-autonomy"))
      (says "configuration policy has invalid plan approval %q" (quoted p.plan_approval ∷ []))
  refuse_if
      (not (p.visual_evidence == "off")
        && not (p.visual_evidence == "optional")
        && not (p.visual_evidence == "required"))
      (says "configuration policy has invalid visual evidence %q" (quoted p.visual_evidence ∷ []))
  refuse_if (not (p.external_effect_authority == "human-or-autonomy-plus-provider")) (
      says "configuration policy has invalid external authority %q"
        (quoted p.external_effect_authority ∷ []))
  refuse_if (is_empty p.hosts) (says "configuration policy requires enabled hosts" [])
  check_hosts [] p.hosts
  refuse_if (not (contains p.hosts "cli")) (says "configuration policy requires cli host" [])

pub record RecoveryContext : Type 0 where
  pub transaction_id : String
  pub cause : String
  pub source_phase : ProtocolPhase
  pub permitted : List String
  pub budget_remaining : ℤ  -- int
  pub resumption : ProtocolPhase

-- RecoveryContext.Validate
unfoldable pub validate_recovery_context : RecoveryContext → Check
validate_recovery_context c =
    refuse_if
      (c.transaction_id == ""
        || c.cause == ""
        || not (Phase.is_valid c.source_phase)
        || not (Phase.is_valid c.resumption)
        || is_empty c.permitted
        || ltb_ℤ c.budget_remaining (ℤ.pos 0))
      (says
        "recovery context requires transaction, cause, source, permitted exits, budget, and resumption target"
        [])

pub record TransactionContext : Type 0 where
  pub id : String
  pub transition_id : String
  pub status : String
  pub resource_digests : List String
  pub external_possible : Bool

-- TransactionContext.Validate
unfoldable pub validate_transaction_context : TransactionContext → Check
validate_transaction_context c =
    refuse_if (c.id == "" || c.transition_id == "" || c.status == "")
      (says "transaction context requires id, transition, and status" [])
