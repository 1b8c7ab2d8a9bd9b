-- ===== src/Integer/Domain.antt =====
-- IntegerDomain, IntegerOperator and IntegerCapabilities of
-- boatstack/kernel/conformance/integer.go. The mutex of the domain and the simulated panic of its
-- operator are left out. JSON and the formats of `fmt` are parameters.
use Prim.Native.String.{◌++◌}
use boatstack.Base.{
  is_some, String, Bool, true, false, not, ◌&&◌, ◌||◌, ◌==◌, Option, List, [], ◌∷◌, if◌then◌else◌,
}
use boatstack.Base.Int.{ℤ, ltb_ℤ, eqb_ℤ}
use boatstack.Kernel.Types.{Observation, EffectFact, Transition, Capability}
use boatstack.Kernel.Codec.{Codec, content_hash}
use boatstack.Kernel.Error.{
  Result, Check, ok, err, port_failed, marshal_failed, from_option, ◌>>=◌, refuse_if,
}
use boatstack.Kernel.Exec.{Exec}
use boatstack.Kernel.Ports.{Evaluation, Operation}
use boatstack.Integer.Formats.{Formats, next_int}

-- IntegerDomain; `executions` is a map, which counts nothing where it has no entry
pub record IntegerDomain : Type 0 where
  pub value : ℤ
  pub executions : List (String × ℤ)
  pub interrupt_next_increment : Bool

-- `executions[id]++`
unfoldable pub count_execution : String → List (String × ℤ) → List (String × ℤ)
unfolding next_int
count_execution id [] = (id, ℤ.pos 1) ∷ []
count_execution id ((k, n) ∷ counts) =
    let rest = count_execution id counts in
    if k == id then (k, next_int n) ∷ counts else (k, n) ∷ rest

-- the operations that the domain knows
pub data IntegerOperation : Type 0 where
  bind increment reset : IntegerOperation
  unknown : IntegerOperation

-- the cases of the `switch` statements
abbrev pub operation_named : String → IntegerOperation
operation_named name =
    if name == "objective.bind"
    then IntegerOperation.bind
    else if name == "counter.increment"
    then IntegerOperation.increment
    else if name == "counter.reset"
    then IntegerOperation.reset
    else IntegerOperation.unknown

-- changeObservation
unfoldable pub change_observation : IntegerDomain → IntegerDomain
change_observation d = record d { value = next_int d.value }

-- interruptNext
unfoldable pub interrupt_next : IntegerDomain → IntegerDomain
interrupt_next d = record d { interrupt_next_increment = true }

-- effectCounts
unfoldable pub effect_counts : IntegerDomain → List (String × ℤ)
effect_counts d = d.executions

-- what is admissible, and why
admissible_operation : IntegerOperation → Evaluation → ℤ → Bool × String
admissible_operation IntegerOperation.bind e observed =
    (not (is_some e.state.objective_binding) && is_some e.objective, "objective is not yet bound")
admissible_operation IntegerOperation.increment e observed = (
  is_some e.objective && ltb_ℤ observed (ℤ.pos 2),
  "exact objective is present and value is below target",
)
admissible_operation IntegerOperation.reset e observed = (
  ltb_ℤ (ℤ.pos 0) observed || is_some e.state.recovery,
  "value is nonzero or recovery remains active",
)
admissible_operation IntegerOperation.unknown e observed = (false, "unknown transition")

-- the postcondition of an operation
unfoldable pub check_postcondition : IntegerOperation → ℤ → ℤ → Check
unfolding next_int
check_postcondition IntegerOperation.bind before after =
    refuse_if (not (eqb_ℤ before after)) (port_failed "objective binding changed domain state")
check_postcondition IntegerOperation.increment before after =
    refuse_if (not (eqb_ℤ after (next_int before))) (port_failed "increment postcondition failed")
check_postcondition IntegerOperation.reset before after =
    refuse_if (not (eqb_ℤ after (ℤ.pos 0))) (port_failed "reset postcondition failed")
check_postcondition IntegerOperation.unknown before after = ok tt

-- the change of the domain that an operation makes, and its error
unfoldable pub change : IntegerOperation → IntegerDomain → Check × IntegerDomain
unfolding next_int
change IntegerOperation.bind d = (ok tt, d)
change IntegerOperation.increment d =
    let raised : IntegerDomain = record d { value = next_int d.value } in
    if d.interrupt_next_increment
    then (
      err (port_failed "simulated interrupted operator"),
      record raised { interrupt_next_increment = false },
    )
    else (ok tt, raised)
change IntegerOperation.reset d = (ok tt, record d { value = ℤ.pos 0 })
change IntegerOperation.unknown d = (err (port_failed "unknown operation"), d)

abbrev pub facet_of : IntegerOperation → String
facet_of IntegerOperation.bind = "supervisor.objective"
facet_of _ = "counter.value"

module _ (codec : Codec) (formats : Formats) where
  -- NewObservation, of a value that `json.Marshal` has encoded
  unfoldable pub new_observation : Option String → Result Observation
  unfolding content_hash
  new_observation encoded = do
    value ← from_option marshal_failed encoded
    fingerprint ← content_hash codec (codec.marshal_value value)
    ok (record { fingerprint = fingerprint; value = value })

  -- `json.Unmarshal` into the struct with the field `value`
  abbrev pub observed_value : Observation → Result ℤ
  observed_value o = from_option (port_failed "json") (formats.unmarshal_value o.value)

  -- IntegerDomain.Observe
  unfoldable pub observe : String → Exec IntegerDomain Observation
  unfolding new_observation
  observe id d = (new_observation (formats.marshal_value d.value), d)

  -- IntegerDomain.Admissible
  unfoldable pub admissible : Evaluation → Exec IntegerDomain (Bool × String)
  unfolding admissible_operation
  admissible e d = (
    do
      observed ← observed_value e.observation
      ok (admissible_operation (operation_named e.transition.operation) e observed),
    d,
  )

  -- IntegerDomain.Verify
  unfoldable pub verify : Evaluation → List EffectFact → Observation → Exec IntegerDomain Unit
  unfolding check_postcondition
  verify e facts target d = (
    do
      before ← observed_value e.observation
      after ← observed_value target
      check_postcondition (operation_named e.transition.operation) before after,
    d,
  )

  -- what IntegerOperator.Execute returns of the domain that it leaves
  unfoldable pub executed :
      Operation → Check × IntegerDomain → Result (List EffectFact) × IntegerDomain
  executed op (err e, d) = (err e, d)
  executed op (ok _, d) = (
    ok (
        record {
          facet = facet_of (operation_named op.transition.operation);
          operation = op.transition.operation;
          fingerprint = "value-" ++ formats.format_int d.value;
        }
        ∷ []),
    d,
  )

  -- IntegerOperator.Execute
  unfoldable pub execute : Operation → Exec IntegerDomain (List EffectFact)
  unfolding count_execution change executed
  execute op d = executed op (
      change (operation_named op.transition.operation)
        (record d { executions = count_execution op.transition.id d.executions }))

  -- IntegerCapabilities.RequiredCapabilities
  unfoldable pub required_by_operation : Transition → Result (List Capability)
  required_by_operation t = elim (operation_named t.operation) [
    | IntegerOperation.bind ↦ ok ("objective.bind" ∷ [])
    | IntegerOperation.increment ↦ ok ("counter.increment" ∷ [])
    | IntegerOperation.reset ↦ ok ("counter.reset" ∷ [])
    | IntegerOperation.unknown ↦
        err (port_failed ("unclassified operation " ++ formats.quote t.operation))
  ]
