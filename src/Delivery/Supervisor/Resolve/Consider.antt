-- ===== src/Delivery/Supervisor/Resolve/Consider.antt =====
-- What a round of the loop of Supervisor.resolve keeps: the candidates and their transitions.
use boatstack.Base.{
  some-injective, is_some, String, Bool, true, false, not, ◌&&◌, ◌==◌, eq_iff, Option, none, some,
  List, [], ◌∷◌, In, inl, inr, ◌⊎◌, ◌≡◌, refl, sym, ap, ◌∙◌, eq_refl, subst, arith, Option-cases,
  if◌then◌else◌,
}
use boatstack.Kernel.Trace.{CandidateTrace}
use boatstack.Kernel.Relation.{RelationCandidate}
use boatstack.Delivery.Catalog.Transition.{Transition}
use boatstack.Delivery.Catalog.Evaluation.{controllable, objective_evaluation, source_evaluation}
use boatstack.Delivery.Supervisor.Policy.{policy_allows}
use boatstack.Delivery.Supervisor.Resolve.{
  Considered, Request, start_trace, with_objective, with_source, candidate_of, replaces_binding,
  incompatible_recovery, consider_domain, add_candidate, later_or, consider_objective,
  consider_source, consider, candidates_of, survivor,
}

-- A round that was not rejected went on.
kept :
    (b : Bool) (x : CandidateTrace) (y : Considered) {c : RelationCandidate}
    → (if b then (x, none) else y).1 ≡ some c
    → (b ≡ false) × (y.1 ≡ some c)
kept true x y h = cc
kept false x y h = (refl, h)

not-false : (b : Bool) → not b ≡ false → b ≡ true
not-false true h = refl
not-false false h = cc

module _ (r : Request) (t : Transition) (c : RelationCandidate) where
  domain_inverse :
      (trace : CandidateTrace)
      → (consider_domain r t trace).1 ≡ some c
      → ((policy_allows r.snapshot t).0 ≡ true) × (candidate_of r t ≡ c)
  unfolding consider_domain
  domain_inverse trace h =
      let (allowed, h) = kept (not (policy_allows r.snapshot t).0) _ _ h in
      (not-false _ allowed, some-injective _ _ h)

  objective_inverse :
      (trace : CandidateTrace)
      → (consider_objective r t trace).1 ≡ some c
      → ((objective_evaluation t r.objective).0 ≡ true)
        × (replaces_binding r t ≡ false)
        × ((policy_allows r.snapshot t).0 ≡ true)
        × (candidate_of r t ≡ c)
  unfolding consider_objective
  objective_inverse trace h =
      let (scoped, h) = kept (not (objective_evaluation t r.objective).0) _ _ h in
      let (binding, h) = kept (replaces_binding r t) _ _ h in
      let (allowed, same) = domain_inverse (with_objective r t trace) h in
      (not-false _ scoped, binding, allowed, same)

  source_inverse :
      (trace : CandidateTrace)
      → (consider_source r t trace).1 ≡ some c
      → ((source_evaluation t r.snapshot).0 ≡ true)
        × (incompatible_recovery r t ≡ false)
        × ((objective_evaluation t r.objective).0 ≡ true)
        × (replaces_binding r t ≡ false)
        × ((policy_allows r.snapshot t).0 ≡ true)
        × (candidate_of r t ≡ c)
  unfolding consider_source
  source_inverse trace h =
      let (sourced, h) = kept (not (source_evaluation t r.snapshot).0) _ _ h in
      let (compatible, h) = kept (incompatible_recovery r t) _ _ h in
      let (scope, binding, allowed, same) = objective_inverse (with_source r t trace) h in
      (not-false _ sourced, compatible, scope, binding, allowed, same)

  -- What holds of a transition that the loop keeps.
  pub record Survives : Type 0 where
    pub is_requested : (r.requested ≡ "") ⊎ (t.id ≡ r.requested)
    pub is_controllable : controllable t ≡ true
    pub source_holds : (source_evaluation t r.snapshot).0 ≡ true
    pub recovers : incompatible_recovery r t ≡ false
    pub in_scope : (objective_evaluation t r.objective).0 ≡ true
    pub keeps_binding : replaces_binding r t ≡ false
    pub is_allowed : (policy_allows r.snapshot t).0 ≡ true

  pub consider-Survives : (consider r t).1 ≡ some c → Survives × (candidate_of r t ≡ c)
  unfolding consider
  consider-Survives h =
      let (asked, h) = kept (not (r.requested == "") && not (t.id == r.requested)) _ _ h in
      let (controlled, h) = kept (not (controllable t)) _ _ h in
      let (source, recovers, scope, binding, allowed, same) = source_inverse (start_trace t) h in
      (
        record {
          is_requested = ground (arith, eq_iff r.requested "", eq_iff t.id r.requested);
          is_controllable = not-false _ controlled;
          source_holds = source;
          recovers = recovers;
          in_scope = scope;
          keeps_binding = binding;
          is_allowed = allowed;
        },
        same,
      )

add_candidate-cases :
    (o : Option RelationCandidate) (rest : List RelationCandidate) (c : RelationCandidate)
    → In c (add_candidate o rest)
    → (o ≡ some c) ⊎ In c rest
add_candidate-cases none rest c m = inr m
add_candidate-cases (some d) rest c (inl e) = inl (ap (λ x. some x) e)
add_candidate-cases (some d) rest c (inr m) = inr m

-- A candidate stems from a transition of the list that the loop keeps.
pub candidates_of_sound :
    (r : Request) (ts : List Transition) (c : RelationCandidate)
    → In c (candidates_of r ts)
    → (t : Transition) × In t ts × ((consider r t).1 ≡ some c)
unfolding candidates_of
candidates_of_sound r [] c m = absurd m
candidates_of_sound r (t ∷ ts) c m =
    elim (add_candidate-cases (consider r t).1 (candidates_of r ts) c m) [
      | inl e ↦ (t, inl refl, e)
      | inr m ↦ let (u, at, kept_u) = candidates_of_sound r ts c m in (u, inr at, kept_u)
    ]

later_or-cases :
    (later earlier : Option Transition) (t : Transition)
    → later_or later earlier ≡ some t
    → (later ≡ some t) ⊎ (earlier ≡ some t)
later_or-cases (some u) earlier t h = inl h
later_or-cases none earlier t h = inr h

later_or-some :
    (later earlier : Option Transition) (t : Transition)
    → (later ≡ some t) ⊎ (earlier ≡ some t)
    → (u : Transition) × (later_or later earlier ≡ some u)
later_or-some (some u) earlier t h = (u, refl)
later_or-some none earlier t (inl h) = cc
later_or-some none earlier t (inr h) = (t, h)

-- the entry that a round of the loop makes
entry_sound :
    (r : Request) (u t : Transition) (id : String)
    → (if is_some ((consider r u).1) && u.id == id then some u else none) ≡ some t
    → (u ≡ t) × (u.id ≡ id) × ((c : RelationCandidate) × ((consider r u).1 ≡ some c))
entry_sound r u t id h = elim (Option-cases (consider r u).1) [
  | inl e ↦ absurd (ground (arith))
  | inr (c, e) ↦ (ground (arith), ground (arith, eq_iff u.id id), (c, e))
]

entry_made :
    (r : Request) (u t : Transition) (c : RelationCandidate)
    → u ≡ t
    → (consider r t).1 ≡ some c
    → (if is_some ((consider r u).1) && u.id == t.id then some u else none) ≡ some u
entry_made r u t c e h =
    subst
      (λ (x : Transition).
        (if is_some ((consider r x).1) && x.id == t.id then some x else none) ≡ some x)
      (sym e) (rw (h, eq_refl t.id) refl)

-- The map finds only transitions of that identity that the loop keeps,
pub survivor_sound :
    (r : Request) (ts : List Transition) (id : String) (t : Transition)
    → survivor r ts id ≡ some t
    → In t ts × (t.id ≡ id) × ((c : RelationCandidate) × ((consider r t).1 ≡ some c))
unfolding survivor
survivor_sound r [] id t h = cc
survivor_sound r (u ∷ ts) id t h = elim (later_or-cases (survivor r ts id) _ t h) [
  | inl later ↦ let (m, named, kept_t) = survivor_sound r ts id t later in (inr m, named, kept_t)
  | inr here ↦
      let (same, named, kept_u) = entry_sound r u t id here in
      (
        inl same,
        ap (λ (x : Transition). x.id) (sym same) ∙ named,
        subst (λ x. (c : RelationCandidate) × ((consider r x).1 ≡ some c)) same kept_u,
      )
]

-- and one for each that it keeps.
pub survivor_complete :
    (r : Request) (ts : List Transition) (t : Transition) (c : RelationCandidate)
    → In t ts
    → (consider r t).1 ≡ some c
    → (u : Transition) × (survivor r ts t.id ≡ some u)
unfolding survivor
survivor_complete r [] t c m h = absurd m
survivor_complete r (u ∷ ts) t c (inl e) h =
    later_or-some (survivor r ts t.id) _ u (inr (entry_made r u t c e h))
survivor_complete r (u ∷ ts) t c (inr m) h =
    let (v, found) = survivor_complete r ts t c m h in
    later_or-some (survivor r ts t.id) _ v (inl found)
