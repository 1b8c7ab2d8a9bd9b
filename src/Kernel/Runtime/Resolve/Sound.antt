-- ===== src/Kernel/Runtime/Resolve/Sound.antt =====
-- What holds of the transition that `resolve` prescribes.
use boatstack.Base.{
  ℕ, String, ◌≡◌, ◌≢◌, refl, sym, ap, subst, ◌∙◌, ◌⊎◌, Bool, true, false, Option, none, some, List,
  arith, In, All,
}
use boatstack.Kernel.Types.{ControlState, Transition, Observation, Capability, AuthorityProjection}
use boatstack.Kernel.Trace.{DecisionKind, Decision, CandidateTrace, DecisionTrace}
use boatstack.Kernel.Error.{Result, ok, err, ok-injective, >>=-eq-ok}
use boatstack.Kernel.Exec.{lift, pure, bind-eq-ok}
use boatstack.Kernel.Authority.{projection}
use boatstack.Kernel.Program.Compile.{program_identity, is_marked}
use boatstack.Kernel.Relation.{RelationCandidate, RelationInput, relate, decide}
use boatstack.Kernel.Relation.Selection.{IsPreferred-In, prescribed_iff}
use boatstack.Kernel.Prescription.{new_prescription, objective_for}
use boatstack.Kernel.Ports.{Runtime, ResolveRequest}
use boatstack.Kernel.Runtime.{
  new_decision_trace, merge_relation_traces, Resolution, required_capabilities,
}
use boatstack.Kernel.Runtime.Resolve.{
  conclude, precheck, prescribe, relate_candidates, with_authority, after_precheck, resolve, clock,
}
use boatstack.Kernel.Runtime.Consider.{consider_all}
use boatstack.Kernel.Runtime.Resolve.Eligible.{AllSurvive, IsCompatible, consider_all-Survives}

-- The transition that the decision names belongs to the program, may start in the current mode and
-- under the current recovery state, is the requested one if one was requested, and all that it
-- requires is granted by the authority of the request at the time `now`.
pub record MayStart {W : Type 0} (runtime : Runtime W) (s : ControlState) (r : ResolveRequest)
    (now : ℕ) (d : Decision) : Type 0 where
  pub transition : Transition
  pub belongs : In transition runtime.program.transitions
  pub named : transition.id ≡ d.transition
  pub source : In s.mode transition.source_modes
  pub compatible : IsCompatible s.recovery transition
  pub asked : (r.requested ≡ "") ⊎ (transition.id ≡ r.requested)
  pub authority : AuthorityProjection
  pub projected : projection runtime.codec now r.authority ≡ ok authority
  pub required : List Capability
  pub required_is : required_capabilities runtime.ports transition ≡ ok required
  pub granted : All (λ c. In c authority.capabilities) required

refused_is_not_prescribed : DecisionKind.refused ≢ DecisionKind.prescribed
refused_is_not_prescribed e = cc

precheck_prescribes_nothing :
    {W : Type 0} (runtime : Runtime W) (s : ControlState) (o : Observation) (r : ResolveRequest)
    (d : Decision)
    → precheck runtime s o r ≡ some d
    → d.kind ≢ DecisionKind.prescribed
unfolding precheck
precheck_prescribes_nothing runtime s o r d h k = ground arith

module _ {W : Type 0} (runtime : Runtime W) (s : ControlState) (o : Observation)
    (r : ResolveRequest) where
  decided-MayStart :
      (time : ℕ) (authority : AuthorityProjection) (candidates : List RelationCandidate)
      → projection runtime.codec time r.authority ≡ ok authority
      → AllSurvive runtime s r runtime.program.transitions candidates
      → let d = decide (record {
        requested = r.requested;
        marked = false;
        no_candidate = DecisionKind.unset;
        candidates = candidates;
        available = authority.capabilities;
      }) in
        d.kind ≡ DecisionKind.prescribed → MayStart runtime s r time d
  decided-MayStart time authority candidates projected survive k =
      let input : RelationInput = record {
        requested = r.requested;
        marked = false;
        no_candidate = DecisionKind.unset;
        candidates = candidates;
        available = authority.capabilities;
      } in
      let (_, (c, preferred, granted, named)) =
        (prescribed_iff input (decide input).transition (λ e. cc)).0 (k, refl) in
      let (t, member, survives) = survive c (IsPreferred-In input c preferred) in
      record {
        transition = t;
        belongs = member;
        named = sym survives.identity ∙ named;
        source = survives.source;
        compatible = survives.compatible;
        asked = survives.asked;
        authority = authority;
        projected = projected;
        required = c.required_all;
        required_is = survives.required;
        granted = granted.0;
      }

  prescribe-decision :
      (trace : DecisionTrace) (authority : AuthorityProjection) (decision : Decision)
      (top : Transition) (res : Resolution)
      → prescribe runtime s o r trace authority decision top ≡ ok res
      → res.decision ≡ decision
  unfolding prescribe
  prescribe-decision trace authority decision top res h =
      let (required, _, h₁) = >>=-eq-ok (required_capabilities runtime.ports top) _ h in
      let (p, _, last) =
        >>=-eq-ok
          (new_prescription runtime.codec s o top (objective_for runtime.codec s r.objective top).0
            authority required)
          _ h₁ in
      sym (ap (λ (x : Resolution). x.decision) (ok-injective _ res last))

  conclude-decision :
      (trace : DecisionTrace) (authority : AuthorityProjection) (decision : Decision)
      (top : Transition) (prescribes : Bool) (res : Resolution)
      → conclude runtime s o r trace authority decision top prescribes ≡ ok res
      → res.decision ≡ decision
  unfolding conclude
  conclude-decision trace authority decision top true res h =
      prescribe-decision trace authority decision top res h
  conclude-decision trace authority decision top false res h =
      sym (ap (λ (x : Resolution). x.decision) (ok-injective _ res h))

  abbrev related : AuthorityProjection → List RelationCandidate → RelationInput
  related authority candidates = record {
    requested = r.requested;
    marked = false;
    no_candidate = DecisionKind.unset;
    candidates = candidates;
    available = authority.capabilities;
  }

  abbrev traced :
      AuthorityProjection
      → DecisionTrace
      → List CandidateTrace × List (String × Transition) × List RelationCandidate
      → DecisionTrace
  traced authority trace found = record trace {
    authority_fingerprint = authority.fingerprint;
    candidates = merge_relation_traces found.0 (relate (related authority found.2)).1;
  }

  relate_candidates-MayStart :
      (time : ℕ) (trace : DecisionTrace) (authority : AuthorityProjection) (res : Resolution)
      (w : W)
      → projection runtime.codec time r.authority ≡ ok authority
      → (relate_candidates runtime s o r trace authority w).0 ≡ ok res
      → res.decision.kind ≡ DecisionKind.prescribed
      → MayStart runtime s r time res.decision
  unfolding relate_candidates relate pure lift
  relate_candidates-MayStart time trace authority res w projected h =
      let (found, all, h₁) =
        bind-eq-ok (consider_all runtime s o r runtime.program.transitions) _ w res h in
      let survive = consider_all-Survives runtime s o r runtime.program.transitions found w all in
      let decided = decided-MayStart time authority found.2 projected survive in
      subst (λ (d : Decision). d.kind ≡ DecisionKind.prescribed → MayStart runtime s r time d)
        (sym (conclude-decision (traced authority trace found) authority _ _ _ res h₁)) decided

  with_authority-MayStart :
      (time : ℕ) (trace : DecisionTrace) (projected : Result AuthorityProjection) (res : Resolution)
      (w : W)
      → projection runtime.codec time r.authority ≡ projected
      → (with_authority runtime s o r trace projected w).0 ≡ ok res
      → res.decision.kind ≡ DecisionKind.prescribed
      → MayStart runtime s r time res.decision
  unfolding with_authority pure
  with_authority-MayStart time trace (err e) res w is h k = absurd (
      refused_is_not_prescribed
        (ap (λ (x : Resolution). x.decision.kind) (ok-injective _ res h) ∙ k))
  with_authority-MayStart time trace (ok authority) res w is h k =
      relate_candidates-MayStart time trace authority res w is h k

  after_precheck-MayStart :
      (trace : DecisionTrace) (decided : Option Decision) (res : Resolution) (w : W)
      → precheck runtime s o r ≡ decided
      → (after_precheck runtime s o r trace decided w).0 ≡ ok res
      → res.decision.kind ≡ DecisionKind.prescribed
      → MayStart runtime s r (runtime.ports.now w).0 res.decision
  unfolding after_precheck pure
  after_precheck-MayStart trace (some d) res w is h k = absurd (
      precheck_prescribes_nothing runtime s o r d is
        (ap (λ (x : Resolution). x.decision.kind) (ok-injective _ res h) ∙ k))
  after_precheck-MayStart trace none res w is h k =
      let now = (runtime.ports.now w).0 in
      let (time, read, h₁) = bind-eq-ok (clock runtime) _ w res h in
      subst (λ time. MayStart runtime s r time res.decision) (sym (ok-injective now time read))
        (with_authority-MayStart time trace (projection runtime.codec time r.authority) res _ refl
          h₁ k)

  -- Where `resolve` ends in a decision that prescribes, the named transition belongs to the program,
  -- may start in the current mode and under the current recovery state, is the one that was
  -- requested if one was, and requires only what the authority of the request grants at the time that
  -- the clock port gives in the world that `resolve` starts in.
  pub resolve-MayStart :
      (res : Resolution) (w : W)
      → (resolve runtime s o r w).0 ≡ ok res
      → res.decision.kind ≡ DecisionKind.prescribed
      → MayStart runtime s r (runtime.ports.now w).0 res.decision
  unfolding resolve
  resolve-MayStart res w h =
      after_precheck-MayStart
        (record (new_decision_trace s o r (program_identity runtime.program)) {
          marked = is_marked runtime.program s.mode;
        })
        (precheck runtime s o r) res w refl h
