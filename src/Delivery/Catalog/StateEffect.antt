-- ===== src/Delivery/Catalog/StateEffect.antt =====
-- validateStateEffect of boatstack/internal/softwaredelivery/catalog/transition.go. A set of names
-- is the list of them.
use boatstack.Base.{
  is_some, ℕ, String, Bool, true, false, not, ◌&&◌, ◌||◌, ◌==◌, eqb, ◌+◌, Option, none, some, List,
  [], ◌∷◌, contains, all_of, is_empty, if◌then◌else◌,
}
use boatstack.Kernel.Error.{Check, Result, says, quoted, ok, ◌>>=◌, ◌>>◌, refuse_if}
use boatstack.Delivery.Model.FactStatus
use boatstack.Delivery.Model.FacetName.{FacetName}
use boatstack.Delivery.Model.StateFacet.{StateFacet}
use boatstack.Delivery.Catalog.SemanticId.{semantic_id}
use boatstack.Delivery.Catalog.StateEffectKind
use boatstack.Delivery.Catalog.Transition.{
  FacetCondition, ParameterSpec, StateAssignment, StatePrecondition, Transition,
}
use boatstack.Delivery.Catalog.Evaluation.{controllable, declares_target_phase}
use boatstack.Delivery.Catalog.StateFacetPolicy.{
  declared_state_field_facet, declared_state_resolver_facet, valid_declared_state_literal,
}
use boatstack.Delivery.Catalog.NativeStateHandler.{validate_native_state_handler}
use boatstack.Delivery.Catalog.StateEffectClosure.{
  first_pin_allows, refuse_of, validate_declarative_state_closure,
  validate_deterministic_assignment,
}

abbrev resolver_implies : Transition → List String → Option FacetName → Bool
resolver_implies t values none = false
resolver_implies t values (some facet) = first_pin_allows facet values t.source_conditions

-- statePreconditionImpliedBySource
unfoldable pub implied_by_source : Transition → StatePrecondition → Bool
implied_by_source t c =
    if c.facet == "phase"
    then all_of (contains c.values) t.source_phases
    else resolver_implies t c.values (declared_state_resolver_facet c.facet)

-- one round of the loop of stateAssignmentMatchesTarget
abbrev target_allows : FacetName → String → FacetCondition → Bool
target_allows facet value target =
    not (target.facet == facet)
    || (contains target.statuses FactStatus.known
        && (is_empty target.values || contains target.values value))

abbrev assigned_allows : Transition → FacetName → Option String → Bool
assigned_allows t facet none = false
assigned_allows t facet (some value) = all_of (target_allows facet value) t.target_conditions

abbrev resolver_allows : Transition → StateAssignment → Option FacetName → Bool
resolver_allows t a none = true
resolver_allows t a (some facet) = assigned_allows t facet a.value

abbrev declares_phase : Transition → Option String → Bool
declares_phase t none = false
declares_phase t (some phase) = declares_target_phase t phase

-- stateAssignmentMatchesTarget
unfoldable pub assignment_matches_target : Transition → StateAssignment → Bool
assignment_matches_target t a =
    if a.facet == "phase"
    then declares_phase t a.value
    else resolver_allows t a (declared_state_resolver_facet a.facet)

-- the loop over the values of a precondition
unfoldable pub check_precondition_values : Transition → String → List String → List String → Check
check_precondition_values t facet seen [] = ok tt
check_precondition_values t facet seen (value ∷ values) = do
  refuse_if (contains seen value || not (valid_declared_state_literal facet value)) (
      says "%s: state-effect precondition %q has invalid or duplicate value %q"
        (quoted t.id ∷ quoted facet ∷ quoted value ∷ []))
  check_precondition_values t facet (value ∷ seen) values

-- the loop over the preconditions
unfoldable pub check_preconditions : Transition → List String → List StatePrecondition → Check
unfolding check_precondition_values
check_preconditions t seen [] = ok tt
check_preconditions t seen (c ∷ conditions) = do
  refuse_of t
      (not (is_some (declared_state_field_facet c.facet))
        || is_empty c.values
        || contains seen c.facet)
      "%s: state-effect preconditions require unique facets and values"
  check_precondition_values t c.facet [] c.values
  refuse_if (not (implied_by_source t c)) (
      says "%s: state-effect precondition %q is not implied by resolver source conditions"
        (quoted t.id ∷ quoted c.facet ∷ []))
  check_preconditions t (c.facet ∷ seen) conditions

abbrev one_if : Bool → ℕ
one_if b = if b then 1 else 0

-- `sources`
abbrev value_sources : StateAssignment → ℕ
value_sources a =
    one_if (is_some a.value)
    + one_if (not (a.value_from.parameter == ""))
    + one_if (not (a.value_from.admission == ""))
    + one_if (not (a.value_from.invocation == ""))

-- `!ValidDeclaredStateLiteral(assignment.Facet, *assignment.Value)` of a value that is there
abbrev invalid_literal : String → Option String → Bool
invalid_literal facet none = false
invalid_literal facet (some value) = not (valid_declared_state_literal facet value)

abbrev text_of : Option String → String
text_of none = ""
text_of (some value) = value

-- `parameters[name]`, where a later parameter of the same name replaces an earlier one
abbrev parameter_of : List ParameterSpec → String → Option ParameterSpec
parameter_of [] name = none
parameter_of (p ∷ parameters) name =
    let rest = parameter_of parameters name in
    if is_some rest then rest else if p.name == name then some p else none

abbrev check_spec : Transition → StateAssignment → Option ParameterSpec → Check
check_spec t a none = refuse_if true (
    says "%s: state-effect assignment %q references undeclared parameter %q"
      (quoted t.id ∷ quoted a.facet ∷ quoted a.value_from.parameter ∷ []))
check_spec t a (some spec) = refuse_if (not spec.required) (
    says "%s: state-effect assignment %q references optional parameter %q"
      (quoted t.id ∷ quoted a.facet ∷ quoted a.value_from.parameter ∷ []))

-- `source != "" && source != ...`
abbrev is_unknown_source : String → List String → Bool
is_unknown_source source sources = not (source == "") && not (contains sources source)

-- the checks of the input that an assignment takes its value from
unfoldable pub check_value_source : Transition → StateAssignment → Check
check_value_source t a = do
  (if not (a.value_from.parameter == "")
      then check_spec t a (parameter_of t.parameters a.value_from.parameter)
      else ok tt)
  refuse_if
      (is_unknown_source a.value_from.admission
        ("source_revision" ∷ "worktree_fingerprint" ∷ "expected_program_fingerprint" ∷ []))
      (says "%s: state-effect assignment %q references unknown admission value %q"
        (quoted t.id ∷ quoted a.facet ∷ quoted a.value_from.admission ∷ []))
  refuse_if
      (is_unknown_source a.value_from.invocation ("invoking_path" ∷ "worktree_id" ∷ "ref" ∷ []))
      (says "%s: state-effect assignment %q references unknown invocation value %q"
        (quoted t.id ∷ quoted a.facet ∷ quoted a.value_from.invocation ∷ []))

-- `!owned[facet]`
abbrev exceeds_owned : Transition → Option StateFacet → Bool
exceeds_owned t none = true
exceeds_owned t (some facet) = not (contains t.owned_facets facet)

-- one round of the loop over the assignments
unfoldable pub check_assignment : Transition → List String → StateAssignment → Check
unfolding check_value_source
check_assignment t assigned a = do
  refuse_of t (not (is_some (declared_state_field_facet a.facet)) || contains assigned a.facet)
      "%s: state-effect assignments require unique facets"
  refuse_if (exceeds_owned t (declared_state_field_facet a.facet)) (
      says "%s: state-effect assignment %q exceeds owned facet %q"
        (quoted t.id ∷ quoted a.facet ∷ quoted (text_of (declared_state_field_facet a.facet)) ∷ []))
  refuse_if (not (eqb (value_sources a) 1)) (
      says "%s: state-effect assignment %q requires exactly one value source"
        (quoted t.id ∷ quoted a.facet ∷ []))
  refuse_if (invalid_literal a.facet a.value) (
      says "%s: state-effect assignment %q has invalid literal %q"
        (quoted t.id ∷ quoted a.facet ∷ quoted (text_of a.value) ∷ []))
  validate_deterministic_assignment t a
  refuse_if (not (assignment_matches_target t a)) (
      says "%s: state-effect assignment %q is not compatible with resolver target conditions"
        (quoted t.id ∷ quoted a.facet ∷ []))
  check_value_source t a

-- the loop over the assignments, which returns the facets that they assign
unfoldable pub check_assignments :
    Transition → List String → List StateAssignment → Result (List String)
unfolding check_assignment
check_assignments t assigned [] = ok assigned
check_assignments t assigned (a ∷ assignments) = do
  check_assignment t assigned a
  check_assignments t (a.facet ∷ assigned) assignments

-- the `switch` on the kind of the effect
unfoldable pub check_effect_kind : Transition → Check
check_effect_kind t =
    if t.state_effect.kind == StateEffectKind.assignments
    then refuse_of t (not (t.state_effect.native_handler == ""))
        "%s: assignment state effect cannot name a native handler"
    else if t.state_effect.kind == StateEffectKind.native
    then refuse_of t
        (t.state_effect.native_handler == ""
          || not (semantic_id t.state_effect.native_handler)
          || not (is_empty t.state_effect.assignments))
        "%s: native state effect requires one semantic handler and no assignments"
      >> refuse_of t t.runtime_execution
          "%s: component runtime transition cannot invoke a host-native state handler"
      >> validate_native_state_handler t
    else refuse_of t true "%s: controllable transition requires a declared state effect"

-- validateStateEffect of a controllable transition
unfoldable pub check_state_effect : Transition → Check
unfolding check_effect_kind check_preconditions check_assignments
check_state_effect t = do
  check_effect_kind t
  check_preconditions t [] t.state_effect.preconditions
  assigned ← check_assignments t [] t.state_effect.assignments
  validate_declarative_state_closure t assigned

-- validateStateEffect
unfoldable pub validate_state_effect : Transition → Check
unfolding check_state_effect
validate_state_effect t =
    if not (controllable t)
    then refuse_of t (not (t.state_effect.kind == "") || not (is_empty t.owned_facets))
        "%s: observed external transition cannot declare a durable state effect"
    else check_state_effect t
