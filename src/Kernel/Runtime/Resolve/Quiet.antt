-- ===== src/Kernel/Runtime/Resolve/Quiet.antt =====
-- Resolution writes nothing.
use boatstack.Base.{String, Option, none, some, List, [], ◌∷◌, refl, ◌≡◌}
use boatstack.Kernel.Types.{Objective, ControlState, Observation, Transition, AuthorityProjection}
use boatstack.Kernel.Trace.{Decision, CandidateTrace, DecisionTrace, ObjectiveReason, TraceReason}
use boatstack.Kernel.Error.{Result, ok, err}
use boatstack.Kernel.Exec.{keeps_rules, Keeps-bind, Keeps-pure}
use boatstack.Kernel.Ports.{Runtime, ResolveRequest, Evaluation}
use boatstack.Kernel.Runtime.Logged.{Logged, logged, Quiet}
use boatstack.Kernel.Runtime.Resolve.{
  relate_candidates, clock, with_authority, after_precheck, resolve, resolve_request,
}
use boatstack.Kernel.Runtime.Consider.{
  consider_domain, consider_objective, consider_recovery, consider, consider_all,
}

module _ {W : Type 0} (runtime : Runtime W) where
  pub observe-Quiet : (id : String) → Quiet ((logged runtime).ports.observe id)
  observe-Quiet id = record { at = λ w. refl }

  pub load-Quiet : (id : String) → Quiet ((logged runtime).ports.load id)
  load-Quiet id = record { at = λ w. refl }

  admissible-Quiet : (e : Evaluation) → Quiet ((logged runtime).ports.admissible e)
  admissible-Quiet e = record { at = λ w. refl }

  pub clock-Quiet : Quiet (clock (logged runtime))
  clock-Quiet = record { at = λ w. refl }

  consider_domain-Quiet :
      (s : ControlState) (o : Observation) (t : Transition) (trace : CandidateTrace)
      (objective : Option Objective)
      → Quiet (consider_domain (logged runtime) s o t trace objective)
  unfolding consider_domain
  consider_domain-Quiet s o t trace objective = search (keeps_rules, admissible-Quiet)

  consider_objective-Quiet :
      (s : ControlState) (o : Observation) (t : Transition) (trace : CandidateTrace)
      (found : Option Objective × Option ObjectiveReason)
      → Quiet (consider_objective (logged runtime) s o t trace found)
  unfolding consider_objective
  consider_objective-Quiet s o t trace (objective, none) =
      search (keeps_rules, consider_domain-Quiet)
  consider_objective-Quiet s o t trace (objective, some r) = search keeps_rules

  consider_recovery-Quiet :
      (s : ControlState) (o : Observation) (r : ResolveRequest) (t : Transition)
      (trace : CandidateTrace) (reason : Option TraceReason)
      → Quiet (consider_recovery (logged runtime) s o r t trace reason)
  unfolding consider_recovery
  consider_recovery-Quiet s o r t trace none = search (keeps_rules, consider_objective-Quiet)
  consider_recovery-Quiet s o r t trace (some _) = search keeps_rules

  consider-Quiet :
      (s : ControlState) (o : Observation) (r : ResolveRequest) (t : Transition)
      → Quiet (consider (logged runtime) s o r t)
  unfolding consider
  consider-Quiet s o r t = search (keeps_rules, consider_recovery-Quiet)

  consider_all-Quiet :
      (s : ControlState) (o : Observation) (r : ResolveRequest) (ts : List Transition)
      → Quiet (consider_all (logged runtime) s o r ts)
  unfolding consider_all
  consider_all-Quiet s o r [] = search keeps_rules
  consider_all-Quiet s o r (t ∷ ts) =
      Keeps-bind _ _ (consider-Quiet s o r t)
        (λ _. Keeps-bind _ _ (consider_all-Quiet s o r ts) (λ _. Keeps-pure _))

  relate_candidates-Quiet :
      (s : ControlState) (o : Observation) (r : ResolveRequest) (trace : DecisionTrace)
      (authority : AuthorityProjection)
      → Quiet (relate_candidates (logged runtime) s o r trace authority)
  unfolding relate_candidates
  relate_candidates-Quiet s o r trace authority = search (keeps_rules, consider_all-Quiet)

  with_authority-Quiet :
      (s : ControlState) (o : Observation) (r : ResolveRequest) (trace : DecisionTrace)
      (authority : Result AuthorityProjection)
      → Quiet (with_authority (logged runtime) s o r trace authority)
  unfolding with_authority
  with_authority-Quiet s o r trace (ok authority) = search (keeps_rules, relate_candidates-Quiet)
  with_authority-Quiet s o r trace (err e) = search keeps_rules

  after_precheck-Quiet :
      (s : ControlState) (o : Observation) (r : ResolveRequest) (trace : DecisionTrace)
      (found : Option Decision)
      → Quiet (after_precheck (logged runtime) s o r trace found)
  unfolding after_precheck
  after_precheck-Quiet s o r trace none = search (keeps_rules, clock-Quiet, with_authority-Quiet)
  after_precheck-Quiet s o r trace (some d) = search keeps_rules

  pub resolve-Quiet :
      (s : ControlState) (o : Observation) (r : ResolveRequest)
      → Quiet (resolve (logged runtime) s o r)
  unfolding resolve
  resolve-Quiet s o r = search (keeps_rules, after_precheck-Quiet)

  -- Resolving a request begins, runs and commits nothing.
  pub resolve_request-Quiet : (r : ResolveRequest) → Quiet (resolve_request (logged runtime) r)
  unfolding resolve_request
  resolve_request-Quiet r = search (keeps_rules, load-Quiet, observe-Quiet, resolve-Quiet)

-- Whatever the ports answer, resolving a request begins, runs and commits nothing: the log of the
-- writes is what it was.
pub resolve_request-log :
    {W : Type 0} (runtime : Runtime W) (r : ResolveRequest) (w : Logged W)
    → (resolve_request (logged runtime) r w).1.log ≡ w.log
resolve_request-log runtime r w = (resolve_request-Quiet runtime r).at w
