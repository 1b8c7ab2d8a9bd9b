-- ===== src/Integer/Tests.antt =====
-- Runs of the integer domain, and the theorems at them.
use boatstack.Base.{
  some-injective, zero, suc, ◌≡◌, ◌≢◌, refl, subst, false, String, ◌==◌, Option, none, some, List,
  [], ◌∷◌, if◌then◌else◌, arith,
}
use boatstack.Base.Int.{ℤ}
use boatstack.Kernel.Types.{ControlState, Observation, EffectFact, Receipt}
use boatstack.Kernel.Error.{ok}
use boatstack.Kernel.Codec.{content_hash}
use boatstack.Kernel.Ports.{Operation, Evaluation}
use boatstack.Kernel.Examples.{digest, codec, idle, repair}
use boatstack.Integer.Formats.{Formats, next_int}
use boatstack.Integer.Domain.{IntegerDomain, new_observation, observe, execute, verify}
use boatstack.Integer.Store.{MemoryStateStore, commit_transition}
use boatstack.Integer.Postconditions.{IsLossless, execute-verify}
use boatstack.Integer.CompareAndSwap.{
  Step, Steps, IsCounted, Steps-IsCounted, commit_transition-once,
}

-- An encoder of 0 and 1, and of nothing else.
abbrev formats : Formats
formats = record {
  marshal_value = λ v. digit_of v;
  unmarshal_value =
      λ s. if s == "0" then some (ℤ.pos 0) else if s == "1" then some (ℤ.pos 1) else none;
  format_int = λ v. "";
  quote = λ s. s;
}
  where
    digit_of : ℤ → Option String
    digit_of (ℤ.pos zero) = some "0"
    digit_of (ℤ.pos (suc zero)) = some "1"
    digit_of _ = none

digits-IsLossless : IsLossless formats
digits-IsLossless = record { round_trip = go }
  where
    go :
        (v : ℤ) (text : String)
        → formats.marshal_value v ≡ some text
        → formats.unmarshal_value text ≡ some v
    go (ℤ.pos zero) text h =
        subst (λ t. formats.unmarshal_value t ≡ some (ℤ.pos 0)) (some-injective "0" text h) refl
    go (ℤ.pos (suc zero)) text h =
        subst (λ t. formats.unmarshal_value t ≡ some (ℤ.pos 1)) (some-injective "1" text h) refl
    go (ℤ.pos (suc (suc n))) text h = cc
    go (ℤ.negsuc n) text h = cc

abbrev counter : IntegerDomain
counter = record { value = ℤ.pos 0; executions = []; interrupt_next_increment = false }

abbrev raise : Operation
raise = record {
  instance_id = "one";
  transition = record repair { id = "counter.increment-first"; operation = "counter.increment" };
  observation = record { fingerprint = ""; value = "0" };
  objective = none;
  capabilities = [];
}

abbrev counted : String → Observation
counted value = record { fingerprint = digest; value = value }

abbrev evaluation : Evaluation
evaluation = record {
  state = idle;
  observation = counted "0";
  objective = none;
  transition = raise.transition;
}

abbrev facts : List EffectFact
facts =
    record { facet = "counter.value"; operation = "counter.increment"; fingerprint = "value-" } ∷ []

before : (observe codec formats "one" counter).0 ≡ ok (counted "0")
unfolding observe content_hash new_observation
before = refl

raises : (execute codec formats raise counter).0 ≡ ok facts
unfolding execute
raises = refl

after : (observe codec formats "one" (execute codec formats raise counter).1).0 ≡ ok (counted "1")
unfolding execute observe content_hash new_observation next_int
after = refl

execute-verify_example :
    (verify codec formats evaluation facts (counted "1") (execute codec formats raise counter).1).0
    ≡ ok tt
execute-verify_example =
    execute-verify codec formats digits-IsLossless "one" raise evaluation counter facts
      (counted "1") refl before raises after

abbrev empty_store : MemoryStateStore
empty_store = record {
  state = idle;
  receipts = [];
  commit_failures = ℤ.pos 0;
  commit_count = ℤ.pos 0;
}

abbrev done : ControlState
done = record idle { mode = "built"; revision = 8 }

abbrev receipt : Receipt
receipt = record {
  schema_version = ℤ.pos 3;
  id = "rcp-1";
  instance_id = "one";
  prescription_id = "prx-1";
  program = idle.program;
  transition_id = "work/build";
  prior_state_revision = 6;
  attempt_state_revision = 7;
  result_state_revision = 8;
  objective_binding = none;
  authority_fingerprint = digest;
  capabilities = [];
  effects = facts;
  prior_observation = digest;
  result_observation = digest;
  verification = "satisfied";
  committed_at = 100;
}

commits : (commit_transition 7 done receipt empty_store).0 ≡ ok tt
unfolding commit_transition
commits = refl

revision_changes : done.revision ≢ 7
revision_changes = λ e. ground arith

commit_transition-once_example :
    (commit_transition 7 idle receipt (commit_transition 7 done receipt empty_store).1).0 ≢ ok tt
commit_transition-once_example =
    commit_transition-once empty_store 7 done idle receipt receipt commits revision_changes

one_commit : Steps empty_store (commit_transition 7 done receipt empty_store).1
one_commit = Steps.followed (Steps.at_rest empty_store) (Step.commits empty_store 7 done receipt)

starts-IsCounted : IsCounted empty_store
starts-IsCounted = λ small. refl

Steps-IsCounted_example : IsCounted (commit_transition 7 done receipt empty_store).1
Steps-IsCounted_example = Steps-IsCounted one_commit starts-IsCounted
