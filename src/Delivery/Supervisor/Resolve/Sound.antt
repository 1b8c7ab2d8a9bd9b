-- ===== src/Delivery/Supervisor/Resolve/Sound.antt =====
-- When Supervisor.resolve prescribes, boatstack/internal/softwaredelivery/supervisor/supervisor.go.
use boatstack.Base.{
  some-injective, true, ◌==◌, eq_iff, Option, none, some, List, In, inl, inr, ◌⊎◌, ◌≡◌, ◌≢◌, refl,
  sym, ap, ◌∙◌, subst, arith, Bool-cases, if◌then◌else◌,
}
use boatstack.Kernel.Trace
use boatstack.Kernel.Trace.{
  prescribed, marked, frontier, blocked, refused, unresolved, unset, other_kind,
}
use boatstack.Kernel.Error.{Reason, ok}
use boatstack.Kernel.Relation.{RelationCandidate, decide, relate}
use boatstack.Kernel.Relation.Grants.{Granted}
use boatstack.Kernel.Relation.Selection.{
  prescribed_iff, IsPreferred-In, IsPreferred-is_eligible, is_eligible,
}
use boatstack.Delivery.Ports.{Library}
use boatstack.Delivery.Catalog.Transition.{Transition}
use boatstack.Delivery.Catalog.Registry.{new_registry, lookup_transition}
use boatstack.Delivery.Catalog.Registry.WellFormed.{new_registry-IsRegistry}
use boatstack.Delivery.Supervisor.DecisionKind
use boatstack.Delivery.Supervisor.DecisionKind.{DecisionKind}
use boatstack.Delivery.Supervisor.Policy.{available_authority}
use boatstack.Delivery.Supervisor.Resolve.{
  Supervisor, Request, candidate_of, consider, map_decision_kind, precheck, prescribed_transition,
  relation_input, resolve_after, resolve, resolve_with_trace, survivor, is_selectable,
}
use boatstack.Delivery.Supervisor.Resolve.Consider.{
  Survives, candidates_of_sound, consider-Survives, survivor_complete, survivor_sound,
}

-- The kinds of the decisions before the loop.
pub precheck-kind :
    (supervisor : Supervisor) (r : Request) (d : DecisionKind × Reason)
    → precheck supervisor r ≡ some d
    → (d.0 ≡ DecisionKind.unresolved) ⊎ (d.0 ≡ DecisionKind.refused)
unfolding precheck
precheck-kind supervisor r d h = ground arith

map_decision_kind-prescribed :
    (k : Trace.DecisionKind) → map_decision_kind k ≡ DecisionKind.prescribed → k ≡ prescribed
map_decision_kind-prescribed prescribed h = refl
map_decision_kind-prescribed marked h =
    ground (arith, eq_iff DecisionKind.terminal DecisionKind.prescribed)
map_decision_kind-prescribed frontier h =
    ground (arith, eq_iff DecisionKind.frontier DecisionKind.prescribed)
map_decision_kind-prescribed blocked h =
    ground (arith, eq_iff DecisionKind.blocked DecisionKind.prescribed)
map_decision_kind-prescribed refused h =
    ground (arith, eq_iff DecisionKind.refused DecisionKind.prescribed)
map_decision_kind-prescribed unresolved h =
    ground (arith, eq_iff DecisionKind.unresolved DecisionKind.prescribed)
map_decision_kind-prescribed unset h =
    ground (arith, eq_iff DecisionKind.unresolved DecisionKind.prescribed)
map_decision_kind-prescribed (other_kind k) h =
    ground (arith, eq_iff DecisionKind.unresolved DecisionKind.prescribed)

-- What the prescription of a transition rests on.
pub record MayPrescribe (supervisor : Supervisor) (r : Request) (t : Transition) : Type 0 where
  pub is_member : In t supervisor.registry.ordered
  pub survives : Survives r t (candidate_of r t)
  pub is_selected : (r.requested ≢ "") ⊎ (is_selectable r t ≡ true)
  pub is_granted : Granted (candidate_of r t) (available_authority r.authority)
  pub is_passed : precheck supervisor r ≡ none

pub no_candidate-not_prescribed :
    (supervisor : Supervisor) (r : Request)
    → (relation_input supervisor r).no_candidate ≢ prescribed
no_candidate-not_prescribed supervisor r e = ground arith

unlike_prescribed :
    (DecisionKind.unresolved ≢ DecisionKind.prescribed)
    × (DecisionKind.refused ≢ DecisionKind.prescribed)
unlike_prescribed = (
  λ e. ground (arith, eq_iff DecisionKind.unresolved DecisionKind.prescribed),
  λ e. ground (arith, eq_iff DecisionKind.refused DecisionKind.prescribed),
)

module _ (supervisor : Supervisor) (r : Request)
    (finds : (t : Transition)
      → In t supervisor.registry.ordered
      → lookup_transition supervisor.registry t.id ≡ some t) where
  -- The map of the survivors finds the transition of a candidate.
  pub survivor_unique :
      (t : Transition) (c : RelationCandidate)
      → In t supervisor.registry.ordered
      → (consider r t).1 ≡ some c
      → survivor r supervisor.registry.ordered t.id ≡ some t
  survivor_unique t c m k =
      let ordered = supervisor.registry.ordered in
      let (u, found) = survivor_complete r ordered t c m k in
      let (at, named, _) = survivor_sound r ordered t.id u found in
      found
      ∙ ap (λ x. some x)
          (some-injective u t
            (sym (finds u at) ∙ ap (lookup_transition supervisor.registry) named ∙ finds t m))

  selected_or_requested :
      (t : Transition)
      → (if r.requested == "" then is_selectable r t else t.id == r.requested) ≡ true
      → (r.requested ≢ "") ⊎ (is_selectable r t ≡ true)
  selected_or_requested t h = elim (Bool-cases (r.requested == "")) [
    | inl e ↦ inr (ground arith)
    | inr e ↦ inl (λ same. ground (arith, eq_iff r.requested ""))
  ]

  decided_sound :
      precheck supervisor r ≡ none
      → (decide (relation_input supervisor r)).kind ≡ prescribed
      → (t : Transition) × (prescribed_transition r supervisor.registry.ordered
            (decide (relation_input supervisor r))
          ≡ some t)
        × MayPrescribe supervisor r t
  decided_sound passed k =
      let input = relation_input supervisor r in
      let (_, (c, preferred, granted, named)) =
        (prescribed_iff input _ (no_candidate-not_prescribed supervisor r)).0 (k, refl) in
      let (t, m, kept) =
        candidates_of_sound r supervisor.registry.ordered c (IsPreferred-In input c preferred) in
      let (survives, same) = consider-Survives r t c kept in
      (
        t,
        rw (k) (
            ap (survivor r supervisor.registry.ordered)
              (sym named ∙ ap (λ (x : RelationCandidate). x.id) (sym same))
            ∙ survivor_unique t c m kept),
        record {
          is_member = m;
          survives =
              (consider-Survives r t (candidate_of r t) (kept ∙ ap (λ x. some x) (sym same))).0;
          is_selected = selected_or_requested t (
              subst (λ x. is_eligible input x ≡ true) (sym same)
                (IsPreferred-is_eligible input c preferred));
          is_granted = subst (λ x. Granted x input.available) (sym same) granted;
          is_passed = passed;
        },
      )

  resolve_after_sound :
      (before : Option (DecisionKind × Reason))
      → precheck supervisor r ≡ before
      → (resolve_after supervisor r before).0.kind ≡ DecisionKind.prescribed
      → (t : Transition) × ((resolve_after supervisor r before).0.transition ≡ some t)
        × MayPrescribe supervisor r t
  unfolding relate
  resolve_after_sound none passed h = decided_sound passed (map_decision_kind-prescribed _ h)
  resolve_after_sound (some d) e h = elim (precheck-kind supervisor r d e) [
    | inl k ↦ absurd (unlike_prescribed.0 (sym k ∙ h))
    | inr k ↦ absurd (unlike_prescribed.1 (sym k ∙ h))
  ]

-- If New returned the registry and `resolve` prescribes, then it names a transition of the registry
-- that is controllable and the requested one, if one was requested, or selectable; whose source
-- conditions hold and that recovers in the phase of recovery; whose objective is in scope and keeps
-- the binding; that the policy allows; and whose required authority the request has.
pub resolve-MayPrescribe :
    (library : Library) (ts : List Transition) (supervisor : Supervisor) (r : Request)
    → new_registry library ts ≡ ok supervisor.registry
    → (resolve supervisor r).kind ≡ DecisionKind.prescribed
    → (t : Transition) × ((resolve supervisor r).transition ≡ some t) × MayPrescribe supervisor r t
unfolding resolve resolve_with_trace
resolve-MayPrescribe library ts supervisor r made h =
    resolve_after_sound supervisor r
      (new_registry-IsRegistry library ts supervisor.registry made).finds (precheck supervisor r)
      refl h
