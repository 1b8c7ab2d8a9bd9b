-- ===== src/Delivery/Model/Canonicalize/Canonical.antt =====
-- What holds of every snapshot that Canonicalize returns,
-- boatstack/internal/softwaredelivery/model/state.go.
use boatstack.Base.{
  String, len, false, not, ◌&&◌, ◌==◌, eqb, eqb_iff, List, [], ◌∷◌, ◌≡◌, ◌≢◌, refl, sym, ap, ap₂,
  map, ◌∙◌, subst, arith, All,
}
use boatstack.Base.Int.{eqb_ℤ, eqb_ℤ_iff}
use boatstack.Kernel.Error.{Check, ok, >>=-eq-ok, check-then, refuse_if-then, ok-injective}
use boatstack.Kernel.Capability.Normal.{IsAscending}
use boatstack.Delivery.Ports.{Library}
use boatstack.Delivery.Model.Fact.{Fact, without_time, validate_fact}
use boatstack.Delivery.Model.FactStatus
use boatstack.Delivery.Model.Invocation.{validate_invocation}
use boatstack.Delivery.Model.Observation.{
  Observation, Snapshot, zero_fact_times, after_fingerprint, without_times,
}
use boatstack.Delivery.Model.Canonicalize.Facts.{
  HasValidFacts, HasValidValues, fact_checks-HasValidFacts, value_checks-HasValidValues,
}
use boatstack.Delivery.Model.Canonicalize.Consistent.{IsConsistent, relation_checks-IsConsistent}
use boatstack.Delivery.Model.Canonicalize.Composite.{
  HasValidComposites, HasValidComposites-after, canonical_policy, context_checks-HasValidComposites,
}
use boatstack.Delivery.Model.Canonicalize.{
  context_checks, fingerprint_of, canonicalize, check_observation, fact_checks, first_error,
  observation_fingerprint, relation_checks, snapshot_schema_version, to_snapshot, value_checks,
  with_canonical_policy, with_defaults,
}

first_error-All : (checks : List Check) → first_error checks ≡ ok tt → All (λ c. c ≡ ok tt) checks
first_error-All [] h = tt
first_error-All (c ∷ checks) h =
    let (first, h) = check-then c _ h in (first, first_error-All checks h)

-- What Canonicalize promises of a snapshot.
pub record IsCanonical (library : Library) (s : Snapshot) : Type 0 where
  pub has_version : s.schema_version ≡ snapshot_schema_version
  pub has_revision : s.state_revision ≢ 0
  pub has_invocation : validate_invocation library.path_is_abs false s.invocation ≡ ok tt
  pub has_valid_facts : HasValidFacts s.observation
  pub has_valid_values : HasValidValues s.observation
  pub has_valid_composites : HasValidComposites s.observation
  pub has_sorted_hosts :
      s.configuration_policy.status ≡ FactStatus.known
      → IsAscending s.configuration_policy.value.hosts
  pub is_consistent : IsConsistent s.observation
  pub is_fingerprinted : observation_fingerprint library s.observation ≡ ok s.fingerprint

-- What `check_observation` accepts.
record IsChecked (library : Library) (o : Observation) : Type 0 where
  invocation_ok : validate_invocation library.path_is_abs false o.invocation ≡ ok tt
  facts_ok : HasValidFacts o
  values_ok : HasValidValues o
  composites_ok : HasValidComposites o
  consistent : IsConsistent o

check_observation-IsChecked :
    (library : Library) (o : Observation)
    → check_observation library o ≡ ok tt
    → IsChecked library o
unfolding check_observation
check_observation-IsChecked library o h =
    let (invocation, h) =
      check-then (validate_invocation library.path_is_abs false o.invocation) _ h in
    let (facts, h) = check-then (first_error (fact_checks o)) _ h in
    let (values, h) = check-then (first_error (value_checks o)) _ h in
    let (relations, contexts) = check-then (first_error (relation_checks o)) _ h in
    record {
      composites_ok =
          context_checks-HasValidComposites o (first_error-All (context_checks o) contexts);
      invocation_ok = invocation;
      facts_ok = fact_checks-HasValidFacts o (first_error-All (fact_checks o) facts);
      values_ok = value_checks-HasValidValues o (first_error-All (value_checks o) values);
      consistent = relation_checks-IsConsistent o (first_error-All (relation_checks o) relations);
    }

-- Its end changes nothing of that.
IsChecked-after :
    (library : Library) (o : Observation)
    → IsChecked library o
    → IsChecked library (after_fingerprint (with_canonical_policy o))
unfolding validate_fact
IsChecked-after library o c = record {
  invocation_ok = c.invocation_ok;
  facts_ok = record {
    program = c.facts_ok.program;
    phase = c.facts_ok.phase;
    engagement = c.facts_ok.engagement;
    delivery = c.facts_ok.delivery;
    workspace = c.facts_ok.workspace;
    work_package = c.facts_ok.work_package;
    plan = c.facts_ok.plan;
    configuration = c.facts_ok.configuration;
    configuration_policy = c.facts_ok.configuration_policy;
    runtime = c.facts_ok.runtime;
    publication = c.facts_ok.publication;
    verification = c.facts_ok.verification;
    recovery = c.facts_ok.recovery;
    transaction = c.facts_ok.transaction;
    recovery_info = c.facts_ok.recovery_info;
    transaction_info = c.facts_ok.transaction_info;
    terminal = c.facts_ok.terminal;
    objective = c.facts_ok.objective;
  };
  values_ok = record {
    phase = c.values_ok.phase;
    program = c.values_ok.program;
    engagement = c.values_ok.engagement;
    delivery = c.values_ok.delivery;
    workspace = c.values_ok.workspace;
    work_package = c.values_ok.work_package;
    plan = c.values_ok.plan;
    configuration = c.values_ok.configuration;
    runtime = c.values_ok.runtime;
    publication = c.values_ok.publication;
    verification = c.values_ok.verification;
    recovery = c.values_ok.recovery;
    transaction = c.values_ok.transaction;
    terminal = c.values_ok.terminal;
  };
  composites_ok = HasValidComposites-after o c.composites_ok;
  consistent = record {
    is_timed = c.consistent.is_timed;
    recovery_phase = c.consistent.recovery_phase;
    recovery_state = c.consistent.recovery_state;
    transaction_state = c.consistent.transaction_state;
    established = c.consistent.established;
    landed = c.consistent.landed;
    active = c.consistent.active;
  };
}

map_twice :
    {A : Type 0} (f : A → A)
    → ((a : A) → f (f a) ≡ f a)
    → (xs : List A) → map f (map f xs) ≡ map f xs
map_twice f h [] = refl
map_twice f h (x ∷ xs) = ap₂ (λ y ys. y ∷ ys) (h x) (map_twice f h xs)

zero_fact_times_twice :
    (facts : List (String × Fact String))
    → zero_fact_times (zero_fact_times facts) ≡ zero_fact_times facts
zero_fact_times_twice [] = refl
zero_fact_times_twice ((id, fact) ∷ facts) =
    ap₂ (λ y ys. y ∷ ys)
      (ap (λ e. (id, record fact { evidence = e }))
        (map_twice without_time (λ e. refl) fact.evidence))
      (zero_fact_times_twice facts)

-- The times that the fingerprint takes away do not come back.
without_times-after : (o : Observation) → without_times (after_fingerprint o) ≡ without_times o
without_times-after o =
    ap₂ (λ p e. record (without_times o) { program_facts = p; extension_facts = e })
      (zero_fact_times_twice o.program_facts) (zero_fact_times_twice o.extension_facts)

to_snapshot-eq-ok :
    (library : Library) (o : Observation) (s : Snapshot)
    → to_snapshot library o ≡ ok s
    → (s.observation ≡ after_fingerprint o)
      × (observation_fingerprint library s.observation ≡ ok s.fingerprint)
unfolding to_snapshot observation_fingerprint
to_snapshot-eq-ok library o s h =
    let (fingerprint, printed, h) = >>=-eq-ok (observation_fingerprint library o) _ h in
    let same = ok-injective _ s h in
    subst
      (λ (x : Snapshot).
        (x.observation ≡ after_fingerprint o)
        × (observation_fingerprint library x.observation ≡ ok x.fingerprint))
      same (refl, ap (fingerprint_of library) (without_times-after o) ∙ printed)

-- Every snapshot that Canonicalize returns has the current schema and a revision, a valid invocation,
-- valid controlling facts of valid values, a valid objective, configuration policy, recovery context
-- and transaction context where these are known, the hosts of the policy in ascending order, and
-- valid facts of the control program and the extensions, none under the name of a controlling facet.
-- What its facts say agrees: a recovery or a transaction has its context, an established terminal
-- state has its objective and no phase and delivery but those that end, a landed workspace has no
-- known publication but a merged one, and an active phase is not dormant. The fingerprint is that of
-- the very observation that it holds.
pub canonicalize-IsCanonical :
    (library : Library) (o : Observation) (s : Snapshot)
    → canonicalize library o ≡ ok s
    → IsCanonical library s
unfolding canonicalize
canonicalize-IsCanonical library o s h =
    let (version, h) =
      refuse_if-then (not (eqb_ℤ o.schema_version snapshot_schema_version)) _ _ h in
    let (revision, h) = refuse_if-then (eqb o.state_revision 0) _ _ h in
    let (_, h) =
      refuse_if-then (not (o.program_fingerprint == "") && not (eqb (len o.program_fingerprint) 64))
        _ _ h in
    let (checked, h) = check-then (check_observation library (with_defaults o)) _ h in
    let (observed, printed) =
      to_snapshot-eq-ok library (with_canonical_policy (with_defaults o)) s h in
    let before = check_observation-IsChecked library (with_defaults o) checked in
    let is = IsChecked-after library (with_defaults o) before in
    let kept : IsChecked library s.observation = subst (IsChecked library) (sym observed) is in
    record {
      has_version =
          ap (λ (x : Observation). x.schema_version) observed
          ∙ (eqb_ℤ_iff o.schema_version snapshot_schema_version).0 (ground arith);
      has_revision = λ e. ground (
        arith,
        sym (ap (λ (x : Observation). x.state_revision) observed) ∙ e,
        eqb_iff o.state_revision 0,
        revision,
      );
      has_invocation = kept.invocation_ok;
      has_valid_facts = kept.facts_ok;
      has_valid_values = kept.values_ok;
      has_valid_composites = kept.composites_ok;
      has_sorted_hosts =
          subst
            (λ (x : Observation).
              x.configuration_policy.status ≡ FactStatus.known
              → IsAscending x.configuration_policy.value.hosts)
            (sym observed)
            (λ known. (canonical_policy (with_defaults o) before.composites_ok.policy known).1);
      is_consistent = kept.consistent;
      is_fingerprinted = printed;
    }
