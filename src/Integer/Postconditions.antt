-- ===== src/Integer/Postconditions.antt =====
-- What the operator of the integer domain does is what its domain verifies.
use boatstack.Base.{String, ◌≡◌, refl, sym, ap, true, Bool-cases, inl, inr, some, List, arith}
use boatstack.Base.Int.{ℤ, eqb_ℤ, eqb_ℤ_iff}
use boatstack.Kernel.Types.{Transition, Observation, EffectFact}
use boatstack.Kernel.Codec.{Codec, content_hash}
use boatstack.Kernel.Error.{
  Check, ok, err, from_option, from_option-eq-ok, >>=-eq-ok, ok-injective, marshal_failed,
}
use boatstack.Kernel.Ports.{Evaluation, Operation}
use boatstack.Integer.Formats.{Formats, next_int}
use boatstack.Integer.Domain.{
  IntegerDomain, IntegerOperation, operation_named, check_postcondition, change, executed,
  count_execution, observed_value, new_observation, observe, verify, execute,
}

-- Decoding what was encoded gives the value back.
pub record IsLossless (formats : Formats) : Type 0 where
  pub round_trip :
      (v : ℤ) (text : String)
      → formats.marshal_value v ≡ some text
      → formats.unmarshal_value text ≡ some v

eqb_ℤ-refl : (a : ℤ) → eqb_ℤ a a ≡ true
eqb_ℤ-refl a = (eqb_ℤ_iff a a).1 refl

change-check_postcondition :
    (operation : IntegerOperation) (d : IntegerDomain)
    → (change operation d).0 ≡ ok tt
    → check_postcondition operation d.value (change operation d).1.value ≡ ok tt
unfolding change check_postcondition
change-check_postcondition IntegerOperation.bind d h = rw (eqb_ℤ-refl d.value)
change-check_postcondition IntegerOperation.increment d h =
    elim (Bool-cases d.interrupt_next_increment) [
      | inl e ↦ absurd (ground arith)
      | inr e ↦ rw (e, eqb_ℤ-refl (next_int d.value))
    ]
change-check_postcondition IntegerOperation.reset d h = refl
change-check_postcondition IntegerOperation.unknown d h = refl

module _ (codec : Codec) (formats : Formats) (lossless : IsLossless formats) where
  observed :
      (id : String) (d : IntegerDomain) (o : Observation)
      → (observe codec formats id d).0 ≡ ok o
      → observed_value codec formats o ≡ ok d.value
  unfolding observe new_observation
  observed id d o h =
      let (text, marshalled, h₁) =
        >>=-eq-ok (from_option marshal_failed (formats.marshal_value d.value)) _ h in
      let (_, _, h₂) = >>=-eq-ok (content_hash codec (codec.marshal_value text)) _ h₁ in
      let value : o.value ≡ text = ap (λ (x : Observation). x.value) (sym (ok-injective _ o h₂)) in
      let written = from_option-eq-ok _ _ marshalled in
      rw (value, lossless.round_trip d.value text written)

  executed-eq-ok :
      (op : Operation) (c : Check × IntegerDomain) (facts : List EffectFact)
      → (executed codec formats op c).0 ≡ ok facts
      → (c.0 ≡ ok tt) × ((executed codec formats op c).1 ≡ c.1)
  unfolding executed
  executed-eq-ok op (ok _, d) facts h = (refl, refl)
  executed-eq-ok op (err e, d) facts h = cc

  -- Where decoding is the inverse of encoding: if the operator executes a transition and returns no
  -- error, then the domain accepts its effect for the observations that were made before it and
  -- after it.
  pub execute-verify :
      (id : String) (op : Operation) (e : Evaluation) (d : IntegerDomain) (facts : List EffectFact)
      (after : Observation)
      → e.transition ≡ op.transition
      → (observe codec formats id d).0 ≡ ok e.observation
      → (execute codec formats op d).0 ≡ ok facts
      → (observe codec formats id (execute codec formats op d).1).0 ≡ ok after
      → (verify codec formats e facts after (execute codec formats op d).1).0 ≡ ok tt
  unfolding execute verify
  execute-verify id op e d facts after same before h observed_after =
      let operation = operation_named op.transition.operation in
      let counted : IntegerDomain = record d {
        executions = count_execution op.transition.id d.executions;
      } in
      let (changed, left) = executed-eq-ok op (change operation counted) facts h in
      let value : (execute codec formats op d).1.value ≡ (change operation counted).1.value =
        ap (λ (x : IntegerDomain). x.value) left in
      rw
        (
          ap (λ (t : Transition). t.operation) same,
          observed id d e.observation before,
          observed id (execute codec formats op d).1 after observed_after,
          value,
        )
        (change-check_postcondition operation counted changed)
