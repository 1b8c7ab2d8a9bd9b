-- ===== src/Delivery/Supervisor/Resolve/Drift.antt =====
-- How a request leaves the drift of the compiled program, in Supervisor.resolve of
-- boatstack/internal/softwaredelivery/supervisor/supervisor.go.
use boatstack.Base.{
  true, false, not, ◌||◌, ◌==◌, Option, none, some, List, [], In, contains→In, In→contains, inl,
  inr, ◌⊎◌, ◌≡◌, ◌≢◌, refl, sym, ap, ◌∙◌, subst, arith, eq_iff, Bool-cases, Option-cases,
}
use boatstack.Kernel.Error.{Reason, ok, check-then, refuse_if-then}
use boatstack.Delivery.Ports.{Library}
use boatstack.Delivery.Model.FactStatus
use boatstack.Delivery.Model.Phase
use boatstack.Delivery.Model.ProgramState
use boatstack.Delivery.Model.Observation.{Snapshot}
use boatstack.Delivery.Catalog.EventClass
use boatstack.Delivery.Catalog.SemanticId.{semantic_id}
use boatstack.Delivery.Catalog.Transition.{Transition}
use boatstack.Delivery.Catalog.Validate.{check_classes, validate_transition}
use boatstack.Delivery.Catalog.Registry.{new_registry, lookup_transition}
use boatstack.Delivery.Catalog.Registry.WellFormed.{new_registry-IsRegistry}
use boatstack.Delivery.Supervisor.DecisionKind
use boatstack.Delivery.Supervisor.DecisionKind.{DecisionKind}
use boatstack.Delivery.Supervisor.Policy.{permitted_program_drift_recovery}
use boatstack.Delivery.Supervisor.Resolve.{
  Supervisor, Request, cannot_leave_drift, precheck, resolve, resolve_after, resolve_with_trace,
}
use boatstack.Delivery.Supervisor.Resolve.Sound.{precheck-kind, resolve-MayPrescribe}

-- A recovery that the context of the recovery permits, in a phase that is known to be recovery.
pub record IsPermittedRecovery (s : Snapshot) (t : Transition) : Type 0 where
  pub is_recovery : t.class ≡ EventClass.recovery
  pub has_phase : s.phase.status ≡ FactStatus.known
  pub is_recovering : s.phase.value ≡ Phase.recovery
  pub has_context : s.recovery_info.status ≡ FactStatus.known
  pub is_permitted : In t.id s.recovery_info.value.permitted

-- What may run while the program has drifted.
abbrev pub LeavesDrift : Snapshot → Transition → Type 0
LeavesDrift s t = (t.policy.reconciles_program ≡ true) ⊎ IsPermittedRecovery s t

permitted-IsPermittedRecovery :
    (s : Snapshot) (t : Transition)
    → permitted_program_drift_recovery s t ≡ true
    → IsPermittedRecovery s t
unfolding permitted_program_drift_recovery
permitted-IsPermittedRecovery s t h =
    let class = eq_iff t.class EventClass.recovery in
    let known = eq_iff s.phase.status FactStatus.known in
    let phase = eq_iff s.phase.value Phase.recovery in
    let context = eq_iff s.recovery_info.status FactStatus.known in
    record {
      is_recovery = ground arith;
      has_phase = ground arith;
      is_recovering = ground arith;
      has_context = ground arith;
      is_permitted = contains→In s.recovery_info.value.permitted t.id (ground arith);
    }

leaves : (s : Snapshot) (t : Transition) → cannot_leave_drift s (some t) ≡ false → LeavesDrift s t
leaves s t h = elim (Bool-cases t.policy.reconciles_program) [
  | inl e ↦ inl e
  | inr e ↦ inr (permitted-IsPermittedRecovery s t (ground arith))
]

leaves_free :
    (s : Snapshot) (t : Transition) → LeavesDrift s t → cannot_leave_drift s (some t) ≡ false
unfolding permitted_program_drift_recovery
leaves_free s t (inl e) = ground arith
leaves_free s t (inr p) = ground (
  arith,
  p.is_recovery,
  p.has_phase,
  p.is_recovering,
  p.has_context,
  In→contains s.recovery_info.value.permitted t.id p.is_permitted,
  eq_iff t.class EventClass.recovery,
  eq_iff s.phase.status FactStatus.known,
  eq_iff s.phase.value Phase.recovery,
  eq_iff s.recovery_info.status FactStatus.known,
)

-- The request, had the program not drifted.
abbrev pub undrifted : Request → Request
undrifted r = record r {
  snapshot = record r.snapshot {
    observation = record r.snapshot.observation {
      program = record r.snapshot.program { value = ProgramState.current };
    };
  };
}

-- Without a way out, a drifted program's request ends before the loop.
stuck-precheck :
    (supervisor : Supervisor) (r : Request)
    → r.snapshot.program.value ≡ ProgramState.drift
    → cannot_leave_drift r.snapshot (lookup_transition supervisor.registry r.requested) ≡ true
    → precheck supervisor r ≢ none
unfolding precheck
stuck-precheck supervisor r drifted stuck e =
    ground (arith, eq_iff r.snapshot.program.value ProgramState.drift)

-- With one, the drift makes no difference to it.
free-precheck :
    (supervisor : Supervisor) (r : Request)
    → cannot_leave_drift r.snapshot (lookup_transition supervisor.registry r.requested) ≡ false
    → precheck supervisor r ≡ precheck supervisor (undrifted r)
unfolding precheck
free-precheck supervisor r free = ground arith

-- A decision before the loop.
abbrev IsEarly : Supervisor → Request → Option (DecisionKind × Reason) → Type 0
IsEarly supervisor r o =
    (((resolve_after supervisor r o).0.kind ≡ DecisionKind.unresolved)
      ⊎ ((resolve_after supervisor r o).0.kind ≡ DecisionKind.refused))
    × ((resolve_after supervisor r o).0.transition ≡ none)
    × ((resolve_after supervisor r o).0.candidates ≡ [])

not_none-IsEarly :
    (supervisor : Supervisor) (r : Request)
    → precheck supervisor r ≢ none
    → IsEarly supervisor r (precheck supervisor r)
not_none-IsEarly supervisor r n = elim (Option-cases (precheck supervisor r)) [
  | inl e ↦ absurd (n e)
  | inr (d, e) ↦ subst (IsEarly supervisor r) (sym e) (precheck-kind supervisor r d e, refl, refl)
]

has_id : (library : Library) (t : Transition) → validate_transition library t ≡ ok tt → t.id ≢ ""
unfolding validate_transition check_classes
has_id library t h e =
    let (classes, _) = check-then (check_classes t) _ h in
    let (named, _) = refuse_if-then (t.id == "" || not (semantic_id t.id)) _ _ classes in
    ground (arith, eq_iff t.id "")

-- The requested transition leaves the drift: it passes the checks before the loop as if the program
-- had not drifted, and nothing else can be prescribed.
pub record IsWayOut (supervisor : Supervisor) (r : Request) (t : Transition) : Type 0 where
  pub is_member : In t supervisor.registry.ordered
  pub is_requested : t.id ≡ r.requested
  pub is_named : r.requested ≢ ""
  pub leaves_drift : LeavesDrift r.snapshot t
  pub is_as_undrifted : precheck supervisor r ≡ precheck supervisor (undrifted r)
  pub is_prescribed :
      (resolve supervisor r).kind ≡ DecisionKind.prescribed
      → (resolve supervisor r).transition ≡ some t

module _ (library : Library) (ts : List Transition) (supervisor : Supervisor) (r : Request)
    (made : new_registry library ts ≡ ok supervisor.registry) where
  way_out :
      (t : Transition)
      → lookup_transition supervisor.registry r.requested ≡ some t
      → cannot_leave_drift r.snapshot (some t) ≡ false
      → IsWayOut supervisor r t
  way_out t found free =
      let is = new_registry-IsRegistry library ts supervisor.registry made in
      let (member, named) = is.finds_only r.requested t found in
      let full : r.requested ≢ "" = λ e. has_id library t (is.all_valid t member) (named ∙ e) in
      record {
        is_member = member;
        is_requested = named;
        is_named = full;
        leaves_drift = leaves r.snapshot t free;
        is_as_undrifted =
            free-precheck supervisor r (ap (cannot_leave_drift r.snapshot) found ∙ free);
        is_prescribed = λ k.
            let (u, prescribed, may) = resolve-MayPrescribe library ts supervisor r made k in
            let asked : u.id ≡ r.requested = elim may.survives.is_requested [
              | inl e ↦ absurd (full e)
              | inr e ↦ e
            ] in
            prescribed
            ∙ sym (is.finds u may.is_member)
            ∙ ap (lookup_transition supervisor.registry) asked
            ∙ found;
      }

-- If New returned the registry and the compiled program has drifted, then either the request names
-- no transition of the registry that reconciles the program or is a recovery that the recovery
-- context permits in the phase of recovery, and the decision is UNRESOLVED or REFUSED, with no
-- transition and no candidates; or it names one, which passes the checks before the loop as if the
-- program had not drifted, and nothing but this transition can be prescribed.
pub resolve-drift :
    (library : Library) (ts : List Transition) (supervisor : Supervisor) (r : Request)
    → new_registry library ts ≡ ok supervisor.registry
    → r.snapshot.program.value ≡ ProgramState.drift
    → (¬ (
          (t : Transition) × (lookup_transition supervisor.registry r.requested ≡ some t)
          × LeavesDrift r.snapshot t)
        × (((resolve supervisor r).kind ≡ DecisionKind.unresolved)
            ⊎ ((resolve supervisor r).kind ≡ DecisionKind.refused))
        × ((resolve supervisor r).transition ≡ none)
        × ((resolve supervisor r).candidates ≡ []))
      ⊎ ((t : Transition) × IsWayOut supervisor r t)
unfolding resolve resolve_with_trace
resolve-drift library ts supervisor r made drifted =
    let named = lookup_transition supervisor.registry r.requested in
    elim (Bool-cases (cannot_leave_drift r.snapshot named)) [
      | inl stuck ↦
          let (kind, transition, candidates) =
            not_none-IsEarly supervisor r (stuck-precheck supervisor r drifted stuck) in
          inl (
            λ (t, found, free). no_way (
                sym (ap (cannot_leave_drift r.snapshot) found ∙ leaves_free r.snapshot t free)
                ∙ stuck),
            kind,
            transition,
            candidates,
          )
      | inr free ↦ elim (Option-cases named) [
        | inl lost ↦ absurd (no_way (sym free ∙ ap (cannot_leave_drift r.snapshot) lost))
        | inr (t, found) ↦ inr (
          t,
          way_out library ts supervisor r made t found
              (sym (ap (cannot_leave_drift r.snapshot) found) ∙ free),
        )
      ]
    ]
  where
    no_way : false ≡ true → ⊥
    no_way h = cc
