-- ===== src/Integer/Fixture.antt =====
-- The reference control program, and its domain, store and clock as the ports of the kernel,
-- boatstack/kernel/conformance/integer.go. MemoryLocker is a mutex: in a run of one application at
-- a time it changes nothing.
use Prim.Native.String.{◌++◌}
use boatstack.Base.{ℕ, String, Bool, not, ◌&&◌, ◌==◌, List, [], ◌∷◌}
use boatstack.Base.Int.{ℤ, eqb_ℤ}
use boatstack.Kernel.Types.{
  Observation, EffectFact, Transition, Program, Capability, Receipt, ObjectiveScope,
  ObjectiveMutation,
}
use boatstack.Kernel.Codec.{Codec}
use boatstack.Kernel.Error.{
  Result, Check, ok, err, port_failed, from_option, ◌>>=◌, ◌>>◌, refuse_if,
}
use boatstack.Kernel.Exec.{Exec}
use boatstack.Kernel.Program.Compile.{compile_program, find_transition}
use boatstack.Kernel.Ports.{Ports, Runtime}
use boatstack.Integer.Formats.{Formats, next_int}
use boatstack.Integer.Domain.{
  IntegerDomain, IntegerOperation, operation_named, facet_of, observed_value,
}
use boatstack.Integer.Domain
use boatstack.Integer.Store.{MemoryStateStore}
use boatstack.Integer.Store

pub record World : Type 0 where
  pub domain : IntegerDomain
  pub store : MemoryStateStore
  pub time : ℕ

module _ {A : Type 0} where
  -- a call of the domain, and of the store
  abbrev in_domain : Exec IntegerDomain A → Exec World A
  in_domain m w = let (r, d) = m w.domain in (r, record w { domain = d })

  abbrev in_store : Exec MemoryStateStore A → Exec World A
  in_store m w = let (r, s) = m w.store in (r, record w { store = s })

module _ (codec : Codec) (formats : Formats) where
  abbrev pub integer_ports : Ports World
  integer_ports = record {
    observe = λ id. in_domain (Domain.observe codec formats id);
    admissible = λ e. in_domain (Domain.admissible codec formats e);
    verify = λ e facts o. in_domain (Domain.verify codec formats e facts o);
    execute = λ op. in_domain (Domain.execute codec formats op);
    required_by_mechanism = Domain.required_by_operation codec formats;
    load = λ id. in_store (Store.load id);
    begin_effect = λ n s. in_store (Store.begin_effect n s);
    commit_transition = λ n s r. in_store (Store.commit_transition n s r);
    acquire = λ id w. (ok tt, w);
    unlock = λ id w. w;
    now = λ w. (w.time, w);
  }

-- a transition of the program, which keeps the objective binding
abbrev preserving :
    String
    → List String
    → String
    → ObjectiveScope
    → Capability
    → String
    → ℕ
    → List String
    → Transition
preserving id source target scope capability operation priority recovers = record {
  id = id;
  source_modes = source;
  target_mode = target;
  objective_scope = scope;
  objective_mutation = ObjectiveMutation.preserve_objective;
  required_capabilities = capability ∷ [];
  owned_facets = "counter.value" ∷ [];
  operation = operation;
  priority = ℤ.pos priority;
  recovers = recovers;
}

abbrev pub integer_transitions : List Transition
integer_transitions =
    record {
      id = "objective.bind";
      source_modes = "unbound" ∷ [];
      target_mode = "zero";
      objective_scope = ObjectiveScope.objective_none;
      objective_mutation = ObjectiveMutation.bind_objective;
      required_capabilities = "objective.bind" ∷ [];
      owned_facets = "supervisor.objective" ∷ [];
      operation = "objective.bind";
      priority = ℤ.pos 5;
      recovers = [];
    }
    ∷ preserving "counter.increment-first" ("zero" ∷ []) "one" ObjectiveScope.objective_bound_exact
        "counter.increment" "counter.increment" 10 []
    ∷ preserving "counter.increment-second" ("one" ∷ []) "two" ObjectiveScope.objective_bound_exact
        "counter.increment" "counter.increment" 10 []
    ∷ preserving "counter.reset" ("one" ∷ "two" ∷ []) "zero"
        ObjectiveScope.objective_optional_preserve "counter.reset" "counter.reset" 20 []
    ∷ preserving "objective.recover" ("unbound" ∷ []) "unbound"
        ObjectiveScope.objective_optional_preserve "counter.reset" "counter.reset" 1
        ("objective.bind" ∷ [])
    ∷ preserving "counter.recover" ("zero" ∷ "one" ∷ "two" ∷ []) "zero"
        ObjectiveScope.objective_optional_preserve "counter.reset" "counter.reset" 1
        ("counter.increment-first" ∷ "counter.increment-second" ∷ "counter.reset" ∷ [])
    ∷ []

module _ (codec : Codec) where
  -- IntegerProgram
  unfoldable pub integer_program : Result Program
  unfolding compile_program
  integer_program =
      compile_program codec "integer-control" "1.0.0" "kernel-v1" "unbound" ("two" ∷ [])
        integer_transitions

  module _ (formats : Formats) where
    abbrev pub integer_runtime : Program → Runtime World
    integer_runtime program = record {
      program = program;
      codec = codec;
      ports = integer_ports codec formats;
    }

    -- `transition.Operation` on a transition that the program knows; its values before and after
    check_committed : IntegerOperation → ℤ → ℤ → Check
    unfolding next_int
    check_committed IntegerOperation.bind prior result =
        refuse_if (not (eqb_ℤ result prior)) (port_failed "objective binding changed value")
    check_committed IntegerOperation.increment prior result =
        refuse_if (not (eqb_ℤ result (next_int prior))) (port_failed "increment changed value")
    check_committed IntegerOperation.reset prior result =
        refuse_if (not (eqb_ℤ result (ℤ.pos 0))) (port_failed "reset left value")
    check_committed IntegerOperation.unknown prior result =
        err (port_failed "unsupported operation")

    -- the one fact that the receipt has to hold
    is_only_fact : EffectFact → List EffectFact → Bool
    is_only_fact expected [] = Bool.false
    is_only_fact expected (fact ∷ []) =
        fact.facet == expected.facet
        && fact.operation == expected.operation
        && fact.fingerprint == expected.fingerprint
    is_only_fact expected (_ ∷ _ ∷ _) = Bool.false

    -- verifyIntegerCommitted, of the observations of the two snapshots; the texts of its errors are
    -- without what is formatted into them
    unfoldable pub verify_integer_committed : Program → Observation → Observation → Receipt → Check
    unfolding check_committed is_only_fact
    verify_integer_committed program before after receipt = do
      prior ← observed_value codec formats before
      result ← observed_value codec formats after
      transition ←
          from_option (port_failed "unknown transition")
            (find_transition program receipt.transition_id)
      let operation = operation_named transition.operation
      refuse_if
          (not (
            is_only_fact
              (record {
                facet = facet_of operation;
                operation = transition.operation;
                fingerprint = "value-" ++ formats.format_int result;
              })
              receipt.effects))
          (port_failed "receipt effect facts differ from independent evidence")
      check_committed operation prior result
