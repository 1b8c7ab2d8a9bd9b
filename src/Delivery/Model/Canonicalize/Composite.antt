-- ===== src/Delivery/Model/Canonicalize/Composite.antt =====
-- The composite values of a snapshot that Canonicalize returns: the objective, the policy, the
-- contexts, and the facts of the control program and of the extensions.
use boatstack.Base.{
  ℕ, suc, String, true, false, not, ◌||◌, eq_iff, List, [], ◌∷◌, ◌≡◌, refl, ◌∙◌, map, arith, All,
  is_empty,
}
use Prim.Native.String.{◌++◌}
use boatstack.Kernel.Capability.Normal.{IsAscending}
use boatstack.Kernel.Error.{Check, ok, err, check-then, refuse_if-then}
use boatstack.Delivery.Model.Fact.{
  Fact, Evidence, check_evidence, validate_fact, is_known, without_time, zero_evidence_times,
}
use boatstack.Delivery.Model.FactStatus
use boatstack.Delivery.Model.FacetName
use boatstack.Delivery.Model.Contexts.{
  validate_policy, validate_recovery_context, validate_transaction_context,
}
use boatstack.Delivery.Model.Contexts.Policy.{canonical-valid}
use boatstack.Delivery.Model.Objective.{validate_objective}
use boatstack.Delivery.Model.Observation.{Observation, zero_fact_times, after_fingerprint}
use boatstack.Delivery.Model.Canonicalize.{
  check_named_facts, context_checks, known_check, with_canonical_policy, wrap_error,
}

-- If the fact is known, its value passes the check.
abbrev pub IsValidIfKnown : {T : Type 0} → (T → Check) → Fact T → Type 0
IsValidIfKnown validate fact = fact.status ≡ FactStatus.known → validate fact.value ≡ ok tt

-- A fact of the control program or of an extension: its identity is a facet name, of none of the
-- controlling facets, and the fact is valid.
pub record IsNamedFact (name : String) (entry : String × Fact String) : Type 0 where
  pub has_name : FacetName.is_valid entry.0 ≡ true
  pub is_not_controlling : FacetName.is_controlling entry.0 ≡ false
  pub is_valid : validate_fact (name ++ entry.0) entry.1 ≡ ok tt

pub record HasValidComposites (o : Observation) : Type 0 where
  pub objective : IsValidIfKnown validate_objective o.objective
  pub policy : IsValidIfKnown validate_policy o.configuration_policy
  pub recovery : IsValidIfKnown validate_recovery_context o.recovery_info
  pub transaction : IsValidIfKnown validate_transaction_context o.transaction_info
  pub program_facts : All (IsNamedFact "control-program fact ") o.program_facts
  pub extension_facts : All (IsNamedFact "extension fact ") o.extension_facts

wrap_error-ok : (format : String) (c : Check) → wrap_error format c ≡ ok tt → c ≡ ok tt
wrap_error-ok format (ok _) h = refl
wrap_error-ok format (err e) h = cc

known_check-valid :
    {T : Type 0} (format : String) (validate : T → Check) (fact : Fact T)
    → known_check format validate fact ≡ ok tt
    → IsValidIfKnown validate fact
known_check-valid format validate fact h known =
    let is : is_known fact ≡ true = ground (arith, eq_iff fact.status FactStatus.known) in
    wrap_error-ok format (validate fact.value) (rw is at h)

named_facts-IsNamedFact :
    (format name : String) (facts : List (String × Fact String))
    → check_named_facts format name facts ≡ ok tt
    → All (IsNamedFact name) facts
unfolding check_named_facts
named_facts-IsNamedFact format name [] h = tt
named_facts-IsNamedFact format name ((id, fact) ∷ facts) h =
    let (named, h) =
      refuse_if-then (not (FacetName.is_valid id) || FacetName.is_controlling id) _ _ h in
    let (valid, h) = check-then (validate_fact (name ++ id) fact) _ h in
    (
      record { has_name = ground arith; is_not_controlling = ground arith; is_valid = valid },
      named_facts-IsNamedFact format name facts h,
    )

pub context_checks-HasValidComposites :
    (o : Observation) → All (λ c. c ≡ ok tt) (context_checks o) → HasValidComposites o
context_checks-HasValidComposites o
      (objective, (program, (extension, (policy, (recovery, (transaction, _)))))) =
    record {
      objective = known_check-valid _ validate_objective o.objective objective;
      policy = known_check-valid _ validate_policy o.configuration_policy policy;
      recovery = known_check-valid _ validate_recovery_context o.recovery_info recovery;
      transaction = known_check-valid _ validate_transaction_context o.transaction_info transaction;
      program_facts = named_facts-IsNamedFact _ _ o.program_facts program;
      extension_facts = named_facts-IsNamedFact _ _ o.extension_facts extension;
    }

check_evidence-without_time :
    (name : String) (index : ℕ) (evidence : List Evidence)
    → check_evidence name index (map without_time evidence) ≡ check_evidence name index evidence
unfolding check_evidence
check_evidence-without_time name index [] = refl
check_evidence-without_time name index (e ∷ evidence) =
    rw (check_evidence-without_time name (suc index) evidence) refl

is_empty-map : (evidence : List Evidence) → is_empty (map without_time evidence) ≡ is_empty evidence
is_empty-map [] = refl
is_empty-map (e ∷ evidence) = refl

validate_fact-zero :
    {T : Type 0} (name : String) (fact : Fact T)
    → validate_fact name (zero_evidence_times fact) ≡ validate_fact name fact
unfolding validate_fact
validate_fact-zero name fact =
    rw (is_empty-map fact.evidence, check_evidence-without_time name 0 fact.evidence) refl

zero_fact_times-IsNamedFact :
    (name : String) (facts : List (String × Fact String))
    → All (IsNamedFact name) facts
    → All (IsNamedFact name) (zero_fact_times facts)
zero_fact_times-IsNamedFact name [] h = tt
zero_fact_times-IsNamedFact name ((id, fact) ∷ facts) (h, rest) = (
  record {
    has_name = h.has_name;
    is_not_controlling = h.is_not_controlling;
    is_valid = validate_fact-zero (name ++ id) fact ∙ h.is_valid;
  },
  zero_fact_times-IsNamedFact name facts rest,
)

-- The policy with its hosts in order is valid too.
pub canonical_policy :
    (o : Observation)
    → IsValidIfKnown validate_policy o.configuration_policy
    → o.configuration_policy.status ≡ FactStatus.known
    → (validate_policy (with_canonical_policy o).configuration_policy.value ≡ ok tt)
      × IsAscending (with_canonical_policy o).configuration_policy.value.hosts
canonical_policy o valid known =
    let is : is_known o.configuration_policy ≡ true =
      ground (arith, eq_iff o.configuration_policy.status FactStatus.known) in
    rw is (canonical-valid o.configuration_policy.value (valid known))

-- Neither the canonical policy nor the fingerprint changes that.
pub HasValidComposites-after :
    (o : Observation)
    → HasValidComposites o
    → HasValidComposites (after_fingerprint (with_canonical_policy o))
HasValidComposites-after o c = record {
  objective = c.objective;
  policy = λ known. (canonical_policy o c.policy known).0;
  recovery = c.recovery;
  transaction = c.transaction;
  program_facts = zero_fact_times-IsNamedFact _ o.program_facts c.program_facts;
  extension_facts = zero_fact_times-IsNamedFact _ o.extension_facts c.extension_facts;
}
