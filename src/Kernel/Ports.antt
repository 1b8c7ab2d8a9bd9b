-- ===== src/Kernel/Ports.antt =====
-- The ports of the kernel, boatstack/kernel/runtime.go: the interfaces Domain, Operator,
-- CapabilityClassifier, Store, Locker and Clock. `W` is the world behind them. The classifier is
-- trusted configuration, and answers the same way each time.
use boatstack.Base.{ℕ, String, Bool, Option, List}
use boatstack.Kernel.Types.{
  Objective, ControlState, Capability, AuthorityReceipt, EffectFact, Transition, Observation,
  Prescription, Receipt, Program,
}
use boatstack.Kernel.Codec.{Codec}
use boatstack.Kernel.Error.{Result}
use boatstack.Kernel.Exec.{Exec}

pub record Evaluation : Type 0 where
  pub state : ControlState
  pub observation : Observation
  pub objective : Option Objective
  pub transition : Transition

pub record Operation : Type 0 where
  pub instance_id : String
  pub transition : Transition
  pub observation : Observation
  pub objective : Option Objective
  pub capabilities : List Capability

pub record Ports (W : Type 0) : Type 0 where
  pub observe : String → Exec W Observation
  pub admissible : Evaluation → Exec W (Bool × String)
  pub verify : Evaluation → List EffectFact → Observation → Exec W Unit
  pub execute : Operation → Exec W (List EffectFact)
  pub required_by_mechanism : Transition → Result (List Capability)
  pub load : String → Exec W ControlState
  pub begin_effect : ℕ → ControlState → Exec W Unit
  pub commit_transition : ℕ → ControlState → Receipt → Exec W Unit
  pub acquire : String → Exec W Unit
  pub unlock : String → W → W
  pub now : W → ℕ × W

-- Runtime
pub record Runtime (W : Type 0) : Type 0 where
  pub program : Program
  pub codec : Codec
  pub ports : Ports W

pub record ResolveRequest : Type 0 where
  pub instance_id : String
  pub objective : Option Objective
  pub authority : List AuthorityReceipt
  pub requested : String
  pub trace : Bool

pub record ApplyRequest : Type 0 where
  pub resolve_request : ResolveRequest
  pub open resolve_request use *
  pub prescription : Prescription
