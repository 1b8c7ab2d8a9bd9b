-- ===== src/Delivery/Supervisor/Resolve/Live.antt =====
-- When Supervisor.resolve has to prescribe,
-- boatstack/internal/softwaredelivery/supervisor/supervisor.go.
use boatstack.Base.{false, none, some, List, In, ◌≡◌, refl, sym, subst}
use boatstack.Kernel.Error.{ok}
use boatstack.Kernel.Relation.{relate}
use boatstack.Kernel.Relation.Grants.{Granted}
use boatstack.Kernel.Relation.Selection.{prescribed_iff, IsPreferred, is_shut}
use boatstack.Delivery.Ports.{Library}
use boatstack.Delivery.Catalog.Transition.{Transition}
use boatstack.Delivery.Catalog.Registry.{new_registry}
use boatstack.Delivery.Catalog.Registry.WellFormed.{new_registry-IsRegistry}
use boatstack.Delivery.Supervisor.DecisionKind
use boatstack.Delivery.Supervisor.DecisionKind.{DecisionKind}
use boatstack.Delivery.Supervisor.Policy.{available_authority}
use boatstack.Delivery.Supervisor.Resolve.{
  Supervisor, Request, candidate_of, consider, precheck, relation_input, resolve_after, resolve,
  resolve_with_trace,
}
use boatstack.Delivery.Supervisor.Resolve.Sound.{no_candidate-not_prescribed, survivor_unique}

-- `t` is the one transition that the loop of `resolve` leaves, and the request has its authority.
pub record MustPrescribe (supervisor : Supervisor) (r : Request) (t : Transition) : Type 0 where
  pub is_passed : precheck supervisor r ≡ none
  pub is_open : is_shut (relation_input supervisor r) ≡ false
  pub is_member : In t supervisor.registry.ordered
  pub is_kept : (consider r t).1 ≡ some (candidate_of r t)
  pub is_preferred : IsPreferred (relation_input supervisor r) (candidate_of r t)
  pub is_granted : Granted (candidate_of r t) (available_authority r.authority)

-- If New returned the registry, and `t` is a transition of it that the loop keeps, that is preferred
-- to every other eligible candidate and whose required authority is available, while no earlier
-- decision is due and no objective is established unrequested, then `resolve` prescribes `t`.
pub resolve-MustPrescribe :
    (library : Library) (ts : List Transition) (supervisor : Supervisor) (r : Request)
    (t : Transition)
    → new_registry library ts ≡ ok supervisor.registry
    → MustPrescribe supervisor r t
    → ((resolve supervisor r).kind ≡ DecisionKind.prescribed)
      × ((resolve supervisor r).transition ≡ some t)
unfolding resolve resolve_with_trace relate
resolve-MustPrescribe library ts supervisor r t made m =
    let input = relation_input supervisor r in
    let finds = (new_registry-IsRegistry library ts supervisor.registry made).finds in
    let (k, named) =
      (prescribed_iff input t.id (no_candidate-not_prescribed supervisor r)).1
        (m.is_open, (candidate_of r t, m.is_preferred, m.is_granted, refl)) in
    subst
      (λ o.
        ((resolve_after supervisor r o).0.kind ≡ DecisionKind.prescribed)
        × ((resolve_after supervisor r o).0.transition ≡ some t))
      (sym m.is_passed)
      (rw (k, named)
        (refl, survivor_unique supervisor r finds t (candidate_of r t) m.is_member m.is_kept))
