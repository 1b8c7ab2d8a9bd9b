-- ===== src/Kernel/Runtime/Resolve/Eligible.antt =====
-- What holds of the transitions that survive the loop of `resolve`.
use boatstack.Base.{
  String, ◌≡◌, refl, sym, subst, ◌⊎◌, inl, inr, Bool, true, false, not, ◌&&◌, ◌==◌, Option, none,
  some, List, [], ◌∷◌, arith, In, contains, contains→In, eq_iff, Bool-cases, if◌then◌else◌,
}
use boatstack.Kernel.Types.{Objective, ControlState, RecoveryState, Transition, Observation}
use boatstack.Kernel.Trace.{CandidateTrace, ObjectiveReason, TraceReason}
use boatstack.Kernel.Error.{Result, ok, ok-injective}
use boatstack.Kernel.Exec.{Exec, lift, pure, bind-eq-ok}
use boatstack.Kernel.Relation.{RelationCandidate}
use boatstack.Kernel.Ports.{Evaluation, Runtime, ResolveRequest}
use boatstack.Kernel.Runtime.{required_capabilities, holds, fresh_trace}
use boatstack.Kernel.Runtime.Consider.{
  Considered, with_candidate, recovery_rejects, consider_domain, consider_objective,
  consider_recovery, consider, consider_all,
}

-- Under a recovery state only what recovers that transition is compatible, and otherwise only what
-- recovers nothing.
abbrev pub IsCompatible : Option RecoveryState → Transition → Type 0
IsCompatible none t = t.recovers ≡ []
IsCompatible (some r) t = In r.transition_id t.recovers

-- The transition may start here, and the candidate stands for it.
pub record Survives {W : Type 0} (runtime : Runtime W) (s : ControlState) (r : ResolveRequest)
    (t : Transition) (c : RelationCandidate) : Type 0 where
  pub identity : c.id ≡ t.id
  pub required : required_capabilities runtime.ports t ≡ ok c.required_all
  pub source : In s.mode t.source_modes
  pub compatible : IsCompatible s.recovery t
  pub asked : (r.requested ≡ "") ⊎ (t.id ≡ r.requested)

recovery_rejects-IsCompatible :
    (r : Option RecoveryState) (t : Transition) → recovery_rejects r t ≡ none → IsCompatible r t
unfolding recovery_rejects
recovery_rejects-IsCompatible none t h = ground arith
recovery_rejects-IsCompatible (some r) t h =
    elim (Bool-cases (contains t.recovers r.transition_id)) [
      | inl e ↦ contains→In t.recovers r.transition_id e
      | inr e ↦ absurd (ground arith)
    ]

-- A branch that ends in `a` is one of the two.
if-eq-ok :
    {W A C : Type 0} (b : Bool) (m n : Exec W A) (w : W) (a : A)
    → ((if b then m else n) w).0 ≡ ok a
    → (b ≡ true → (m w).0 ≡ ok a → C)
    → (b ≡ false → (n w).0 ≡ ok a → C)
    → C
if-eq-ok true m n w a h f g = f refl h
if-eq-ok false m n w a h f g = g refl h

considered : CandidateTrace → Option RelationCandidate → Result Considered
considered trace candidate = ok (trace, candidate)

same_candidate :
    (x y : CandidateTrace) (c d : RelationCandidate)
    → considered x (some c) ≡ considered y (some d)
    → c ≡ d
unfolding considered
same_candidate x y c d h = cc

module _ {W : Type 0} (runtime : Runtime W) (s : ControlState) (o : Observation)
    (r : ResolveRequest) (t : Transition) where
  -- what the candidate of a transition is
  abbrev StandsFor : RelationCandidate → Type 0
  StandsFor c = (c.id ≡ t.id) × (required_capabilities runtime.ports t ≡ ok c.required_all)

  consider_domain-StandsFor :
      (trace traced : CandidateTrace) (objective : Option Objective) (c : RelationCandidate) (w : W)
      → (consider_domain runtime s o t trace objective w).0 ≡ ok (traced, some c)
      → StandsFor c
  unfolding consider_domain lift pure considered
  consider_domain-StandsFor trace traced objective c w h =
      let evaluation : Evaluation = record {
        state = s;
        observation = o;
        objective = objective;
        transition = t;
      } in
      let (answer, _, judged) =
        bind-eq-ok (runtime.ports.admissible evaluation) _ w (traced, some c) h in
      if-eq-ok (not answer.0) _ _ (runtime.ports.admissible evaluation w).1 (traced, some c) judged
        (λ _ dropped. cc)
        (λ _ kept.
          let (required, granted, last) =
            bind-eq-ok (lift (required_capabilities runtime.ports t)) _ _ (traced, some c) kept in
          subst StandsFor (same_candidate _ traced _ c last) (refl, granted))

  consider_objective-StandsFor :
      (trace traced : CandidateTrace) (found : Option Objective × Option ObjectiveReason)
      (c : RelationCandidate) (w : W)
      → (consider_objective runtime s o t trace found w).0 ≡ ok (traced, some c)
      → StandsFor c
  unfolding consider_objective pure
  consider_objective-StandsFor trace traced (objective, some cause) c w h = cc
  consider_objective-StandsFor trace traced (objective, none) c w h =
      consider_domain-StandsFor
        (record trace {
          objective_scope = holds TraceReason.scope_is_satisfied;
          objective_mutation = holds TraceReason.mutation_is_admissible;
        })
        traced objective c w h

  consider_recovery-Survives :
      (trace traced : CandidateTrace) (rejected : Option TraceReason) (c : RelationCandidate)
      (w : W)
      → (consider_recovery runtime s o r t trace rejected w).0 ≡ ok (traced, some c)
      → (rejected ≡ none) × StandsFor c
  unfolding consider_recovery pure
  consider_recovery-Survives trace traced (some cause) c w h = cc
  consider_recovery-Survives trace traced none c w h = (
    refl,
    consider_objective-StandsFor
        (record trace { recovery_compatible = holds TraceReason.recovery_is_compatible }) traced _ c
        w h,
  )

  consider-Survives :
      (traced : CandidateTrace) (c : RelationCandidate) (w : W)
      → (consider runtime s o r t w).0 ≡ ok (traced, some c)
      → Survives runtime s r t c
  unfolding consider pure
  consider-Survives traced c w h =
      if-eq-ok _ _ _ w (traced, some c) h (λ _ dropped. cc)
        λ wanted rest.
          if-eq-ok _ _ _ w (traced, some c) rest (λ _ dropped. cc)
            λ starts last.
              let (allowed, (identity, required)) =
                consider_recovery-Survives
                  (record (fresh_trace t) { source_mode = holds TraceReason.is_a_source_mode })
                  traced (recovery_rejects s.recovery t) c w last in
              record {
                identity = identity;
                required = required;
                source = contains→In t.source_modes s.mode (of_not starts);
                compatible = recovery_rejects-IsCompatible s.recovery t allowed;
                asked = asked_of wanted;
              }
    where
      of_not : {b : Bool} → not b ≡ false → b ≡ true
      of_not h = ground arith

      asked_of :
          (not (r.requested == "") && not (t.id == r.requested)) ≡ false
          → (r.requested ≡ "") ⊎ (t.id ≡ r.requested)
      asked_of h = elim (Bool-cases (r.requested == "")) [
        | inl e ↦ inl ((eq_iff r.requested "").0 e)
        | inr e ↦ inr ((eq_iff t.id r.requested).0 (ground arith))
      ]

-- Each candidate stands for a transition that may start.
abbrev pub AllSurvive :
    {W : Type 0}
    → Runtime W
    → ControlState
    → ResolveRequest
    → List Transition
    → List RelationCandidate
    → Type 0
AllSurvive runtime s r ts cs =
    (c : RelationCandidate) → In c cs → (t : Transition) × In t ts × Survives runtime s r t c

module _ {W : Type 0} (runtime : Runtime W) (s : ControlState) (o : Observation)
    (r : ResolveRequest) where
  survive-cons :
      (traced : CandidateTrace) (found : Option RelationCandidate) (t : Transition)
      (ts : List Transition) (cs : List RelationCandidate) (w : W)
      → (consider runtime s o r t w).0 ≡ ok (traced, found)
      → AllSurvive runtime s r ts cs
      → AllSurvive runtime s r (t ∷ ts) (with_candidate found cs)
  survive-cons traced none t ts cs w h rest c m =
      let (u, k, survives) = rest c m in (u, inr k, survives)
  survive-cons traced (some d) t ts cs w h rest c m = elim m [
    | inl here ↦ (
      t,
      inl refl,
      subst (Survives runtime s r t) here (consider-Survives runtime s o r t traced d w h),
    )
    | inr later ↦ let (u, k, survives) = rest c later in (u, inr k, survives)
  ]

  pub consider_all-Survives :
      (ts : List Transition)
      (found : List CandidateTrace × List (String × Transition) × List RelationCandidate) (w : W)
      → (consider_all runtime s o r ts w).0 ≡ ok found
      → AllSurvive runtime s r ts found.2
  unfolding consider_all pure
  consider_all-Survives [] found w h =
      λ c m. absurd (subst (λ f. In c f.2) (sym (ok-injective _ found h)) m)
  consider_all-Survives (t ∷ ts) found w h =
      let (one, considered_one, h₁) = bind-eq-ok (consider runtime s o r t) _ w found h in
      let (rest, considered_rest, last) =
        bind-eq-ok (consider_all runtime s o r ts) _ (consider runtime s o r t w).1 found h₁ in
      subst (λ f. AllSurvive runtime s r (t ∷ ts) f.2) (ok-injective _ found last)
        (survive-cons one.0 one.1 t ts rest.2 w considered_one
          (consider_all-Survives ts rest _ considered_rest))
