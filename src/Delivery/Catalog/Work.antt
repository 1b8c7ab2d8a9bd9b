-- ===== src/Delivery/Catalog/Work.antt =====
-- The foreground work of a transition, boatstack/internal/softwaredelivery/catalog/transition.go,
-- and the producer of one of its inputs, boatstack/controlprogram/ir.go.
use boatstack.Base.{String, Bool, Option, List}
use boatstack.Base.Int.{ℤ}

pub record FactPredicate : Type 0 where
  pub facet : String
  pub statuses : List String
  pub values : List String

-- Predicate: its fields All, Any, Not, Fact and True, in this order
mutual
  pub data Predicate : Type 0 where
    predicate :
        Predicates → Predicates → PredicatePointer → Option FactPredicate → Option Bool → Predicate

  pub data Predicates : Type 0 where
    no_predicates : Predicates
    and_predicate : Predicate → Predicates → Predicates

  pub data PredicatePointer : Type 0 where
    no_predicate : PredicatePointer
    to_predicate : Predicate → PredicatePointer

pub record ParameterResolverBinding : Type 0 where
  pub reference : String
  pub version : String
  pub fingerprint : String

pub record HostInputRequest : Type 0 where
  pub id : String
  pub description : String
  pub authorities : List String
  pub scope : String

pub record ParameterProducer : Type 0 where
  pub kind : String
  pub input : String
  pub facet : String
  pub available_when : Option Predicate
  pub transition : String
  pub field : String
  pub work : String
  pub output : String
  pub binding : Option ParameterResolverBinding
  pub request : Option HostInputRequest

abbrev pub source_entry_input : String
source_entry_input = "entry-input"

abbrev pub source_work_output : String
source_work_output = "work-output"

pub record WorkInput : Type 0 where
  pub id : String
  pub producer : ParameterProducer

pub record WorkOutput : Type 0 where
  pub id : String
  pub path : String
  pub media_type : String
  pub required : Bool
  pub max_bytes : ℤ  -- int64
  pub guidance_path : String
  pub guidance_sha256 : String
  pub guidance_content : String
  pub schema_path : String
  pub schema_sha256 : String
  pub schema_content : String

pub record WorkContract : Type 0 where
  pub id : String
  pub fingerprint : String
  pub instruction_path : String
  pub instruction_sha256 : String
  pub instruction_content : String
  pub inputs : List WorkInput
  pub outputs : List WorkOutput
