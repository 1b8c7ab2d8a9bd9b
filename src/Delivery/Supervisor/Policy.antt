-- ===== src/Delivery/Supervisor/Policy.antt =====
-- The rules of a policy, boatstack/internal/softwaredelivery/supervisor/supervisor.go.
pub mod Granted
use Prim.Native.String.{◌++◌ as append}
use text.Mathlib.Text.{starts_with}
use boatstack.Base.{
  String, Bool, true, false, not, ◌&&◌, ◌||◌, ◌==◌, List, [], ◌∷◌, ◌++◌, map, keep, any_of,
  contains, if◌then◌else◌,
}
use boatstack.Kernel.Types.{Capability}
use boatstack.Kernel.Trace.{TraceReason, no_reason, trace_says}
use boatstack.Kernel.Error.{quoted}
use boatstack.Delivery.Model.Fact.{Evidence, is_known}
use boatstack.Delivery.Model.Phase
use boatstack.Delivery.Model.Objective.{Objective, objective_eq}
use boatstack.Delivery.Model.Observation.{Snapshot}
use boatstack.Delivery.Catalog.AuthorityClass
use boatstack.Delivery.Catalog.AuthorityClass.{AuthorityClass}
use boatstack.Delivery.Catalog.EventClass
use boatstack.Delivery.Catalog.Transition.{Transition}
use boatstack.Delivery.Catalog.Evaluation.{Answer, target_matches}
use boatstack.Delivery.Catalog.Authority.{when, AuthoritySet}

-- authorityCapability
unfoldable pub authority_capability : AuthorityClass → Capability
authority_capability class = append "authority." class

-- availableAuthority
unfoldable pub available_authority : AuthoritySet → List Capability
unfolding authority_capability
available_authority [] = []
available_authority ((class, present) ∷ entries) =
    let rest = available_authority entries in
    if present && not (class == AuthorityClass.none)
    then authority_capability class ∷ rest
    else rest

-- the classes of a list but AuthorityNone, as capabilities
abbrev pub restricted : List AuthorityClass → List Capability
restricted classes =
    map authority_capability (keep (λ class. not (class == AuthorityClass.none)) classes)

-- `any` of relationAuthority
unfoldable pub required_any : Transition → List Capability
required_any t =
    if any_of (λ class. class == AuthorityClass.none) t.authority
    then []
    else restricted t.authority

-- what a rule of the policy adds to `all`
unfoldable pub policy_authority : Snapshot → Transition → List Capability
policy_authority s t =
    let rule = t.policy.authority_rule in
    let policy = s.configuration_policy.value in
    let known = is_known s.configuration_policy in
    when (not (rule == "") && not known) "authority.verified-configuration-policy"
    ++ when (rule == "plan-approval" && known && policy.plan_approval == "human")
        (authority_capability AuthorityClass.human)
    ++ when
        (rule == "independent-high-risk-review"
          && known
          && (policy.independent_review_for_high_risk && policy.high_risk_change))
        (authority_capability AuthorityClass.human)

-- `all` of relationAuthority
unfoldable pub required_all : Snapshot → Transition → List Capability
unfolding policy_authority
required_all s t = restricted t.authority_all ++ policy_authority s t

-- permittedProgramDriftRecovery
unfoldable pub permitted_program_drift_recovery : Snapshot → Transition → Bool
permitted_program_drift_recovery s t =
    if not (t.class == EventClass.recovery)
      || not (is_known s.phase)
      || not (s.phase.value == Phase.recovery)
      || not (is_known s.recovery_info)
    then false
    else contains s.recovery_info.value.permitted t.id

-- `currentRevisions`
abbrev current_revisions : List Evidence → List String
current_revisions evidence =
    keep (λ revision. not (revision == "")) (map (λ e. e.revision) evidence)

-- currentEvidenceRecorded
unfoldable pub current_evidence_recorded : Snapshot → String → Bool
current_evidence_recorded s source_prefix =
    is_known s.verification
    && any_of
        (λ e.
          starts_with e.source source_prefix
          && not (e.revision == "")
          && contains (current_revisions s.delivery.evidence) e.revision)
        s.verification.evidence

-- targetAlreadySatisfied
unfoldable pub target_already_satisfied : Snapshot → Objective → Transition → Bool
unfolding current_evidence_recorded
target_already_satisfied s g t =
    if t.policy.rechecks_external_state
    then false
    else if t.policy.binds_requested_objective
    then is_known s.objective && objective_eq s.objective.value g
    else if t.policy.required_when == "visual-evidence-required"
        && (not (is_known s.configuration_policy)
            || not (s.configuration_policy.value.visual_evidence == "required"))
    then true
    else if not (t.policy.current_evidence_prefix == "")
    then current_evidence_recorded s t.policy.current_evidence_prefix
    else target_matches t s

-- hostEnabled
abbrev pub host_enabled : List String → String → Bool
host_enabled hosts host = contains hosts host

-- policyAllows
unfoldable pub policy_allows : Snapshot → Transition → Answer
policy_allows s t =
    let rule = t.policy.availability_rule in
    if t.class == EventClass.recovery
      && is_known s.recovery_info
      && not (contains s.recovery_info.value.permitted t.id)
    then (
      false,
      trace_says "recovery transition %q is not permitted for transaction %q"
          (quoted t.id ∷ quoted s.recovery_info.value.transaction_id ∷ []),
    )
    else if rule == ""
    then (true, no_reason)
    else if not (is_known s.configuration_policy)
    then (false, trace_says "transition %q requires known configuration policy" (quoted t.id ∷ []))
    else if rule == "visual-evidence-enabled"
        && s.configuration_policy.value.visual_evidence == "off"
    then (false, trace_says "visual evidence is disabled by repository policy" [])
    else (true, no_reason)
