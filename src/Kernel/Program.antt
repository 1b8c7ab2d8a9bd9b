-- ===== src/Kernel/Program.antt =====
-- Transitions and control programs, boatstack/kernel/program.go.
pub mod Compile
pub mod Canonical
pub mod RoundTrip
pub mod Indexed
pub mod Recoveries
pub mod WellFormed
use boatstack.Base.{
  is_some, ℕ, String, len, Bool, true, false, not, ◌&&◌, ◌||◌, ◌==◌, Option, none, some, List, [],
  ◌∷◌, contains, is_empty, eqb, if◌then◌else◌, any_of,
}
use boatstack.Base.Int.{ℤ, ltb_ℤ, eqb_ℤ}
use boatstack.Base.Text.{str_ltb}
use boatstack.Base.Sort.{sort}
use boatstack.Kernel.Types.{
  Transition, Program, ProgramIdentity, ObjectiveScope, ObjectiveMutation, Capability,
  program_schema_version,
}
use boatstack.Kernel.Identifier.{semantic_id, qualified_semantic_id}
use boatstack.Kernel.Capability.{normalize_capabilities}
use boatstack.Kernel.Codec.{Codec, content_hash}
use boatstack.Kernel.Error.{
  Error, Result, Check, ok, err, transition_incomplete, transition_needs_capabilities,
  transition_invalid_facet, transition_invalid_recovery, transition_objective_mutation,
  in_transition, not_semantic, not_qualified, duplicated, program_incomplete,
  program_contract_fingerprint, program_fingerprint_mismatch, program_duplicates,
  recovery_must_preserve, no_declared_recovery, recovers_unknown, cannot_recover_from, ◌>>=◌, ◌>>◌,
  refuse_if,
}

-- ObjectiveScope.Valid
abbrev pub valid_scope : ObjectiveScope → Bool
valid_scope (ObjectiveScope.other_scope _) = false
valid_scope _ = true

-- ObjectiveMutation.valid
abbrev pub valid_mutation : ObjectiveMutation → Bool
valid_mutation (ObjectiveMutation.other_mutation _) = false
valid_mutation _ = true

abbrev pub preserves_objective : ObjectiveMutation → Bool
preserves_objective ObjectiveMutation.preserve_objective = true
preserves_objective _ = false

abbrev pub is_scope_none : ObjectiveScope → Bool
is_scope_none ObjectiveScope.objective_none = true
is_scope_none _ = false

abbrev pub is_scope_bound_exact : ObjectiveScope → Bool
is_scope_bound_exact ObjectiveScope.objective_bound_exact = true
is_scope_bound_exact _ = false

-- an error wrapped as "transition %q: %w"
abbrev within_transition {ℓ} : {A : Type ℓ} → String → Result A → Result A
within_transition id (ok a) = ok a
within_transition id (err e) = err (in_transition id e)

-- the loop over the owned facets
check_facets : String → List String → List String → Check
check_facets id seen [] = ok tt
check_facets id seen (facet ∷ facets) = do
  refuse_if (not (semantic_id facet) || contains seen facet) (transition_invalid_facet id facet)
  check_facets id (facet ∷ seen) facets

-- the loop over the recovery targets
check_recovery_targets : String → List String → Check
check_recovery_targets id [] = ok tt
check_recovery_targets id (recovered ∷ rest) = do
  refuse_if (not (qualified_semantic_id recovered)) (transition_invalid_recovery id recovered)
  check_recovery_targets id rest

-- Transition.validate
unfoldable pub validate_transition : Transition → Check
unfolding check_facets check_recovery_targets
validate_transition t = do
  refuse_if
      (not (qualified_semantic_id t.id)
        || is_empty t.source_modes
        || t.target_mode == ""
        || not (valid_scope t.objective_scope)
        || not (valid_mutation t.objective_mutation)
        || not (qualified_semantic_id t.operation)
        || ltb_ℤ t.priority (ℤ.pos 1))
      (transition_incomplete t.id)
  refuse_if (is_empty t.required_capabilities || is_empty t.owned_facets)
      (transition_needs_capabilities t.id)
  _ ← within_transition t.id (normalize_capabilities t.required_capabilities)
  check_facets t.id [] t.owned_facets
  refuse_if
      (not (preserves_objective t.objective_mutation)
        && (not (is_scope_none t.objective_scope)
            || not (contains t.owned_facets "supervisor.objective")
            || not (contains t.required_capabilities "objective.bind")))
      (transition_objective_mutation t.id)
  check_recovery_targets t.id t.recovers

-- `index > 0 && value == result[index-1]`
abbrev repeats : Option String → String → Bool
repeats none value = false
repeats (some previous) value = value == previous

-- the loop of `canonicalIDs` and `canonicalQualifiedIDs` over the sorted values; `previous` is
-- `result[index-1]`
check_sorted : (String → Bool) → (String → Error) → String → Option String → List String → Check
check_sorted matches unfit label previous [] = ok tt
check_sorted matches unfit label previous (value ∷ values) = do
  refuse_if (not (matches value)) (unfit value)
  refuse_if (repeats previous value) (duplicated label value)
  check_sorted matches unfit label (some value) values

-- canonicalIDs
unfoldable pub canonical_ids : List String → String → Result (List String)
unfolding check_sorted
canonical_ids values label = do
  let result = sort str_ltb values
  check_sorted semantic_id (not_semantic label) label none result
  ok result

-- canonicalQualifiedIDs
unfoldable pub canonical_qualified_ids : List String → String → Result (List String)
unfolding check_sorted
canonical_qualified_ids values label = do
  let result = sort str_ltb values
  check_sorted qualified_semantic_id (not_qualified label) label none result
  ok result

-- Transition.canonical
unfoldable pub canonical_transition : Transition → Result Transition
unfolding canonical_ids canonical_qualified_ids
canonical_transition t = do
  source_modes ← within_transition t.id (canonical_ids t.source_modes "source mode")
  capabilities ← within_transition t.id (normalize_capabilities t.required_capabilities)
  owned_facets ← within_transition t.id (canonical_ids t.owned_facets "owned facet")
  recovers ← within_transition t.id (canonical_qualified_ids t.recovers "recovery target")
  ok (record t {
    source_modes = source_modes;
    required_capabilities = capabilities;
    owned_facets = owned_facets;
    recovers = recovers;
  })

-- the first loop of `prepare`
pub canonical_transitions : List Transition → Result (List Transition)
unfolding canonical_transition
canonical_transitions [] = ok []
canonical_transitions (t ∷ ts) = do
  c ← canonical_transition t
  cs ← canonical_transitions ts
  ok (c ∷ cs)

-- the `less` of the sort in `prepare`
abbrev pub transition_before : Transition → Transition → Bool
transition_before a b =
    if not (eqb_ℤ a.priority b.priority) then ltb_ℤ a.priority b.priority else str_ltb a.id b.id

-- `m[id]` of a map from identities
pub lookup_transition : List (String × Transition) → String → Option Transition
lookup_transition [] id = none
lookup_transition ((k, t) ∷ rest) id = if k == id then some t else lookup_transition rest id

-- the second loop of `prepare`, which fills `byID`
pub index_transitions :
    List (String × Transition) → List Transition → Result (List (String × Transition))
unfolding validate_transition lookup_transition
index_transitions by_id [] = ok by_id
index_transitions by_id (t ∷ ts) = do
  validate_transition t
  refuse_if (is_some (lookup_transition by_id t.id)) (program_duplicates t.id)
  index_transitions ((t.id, t) ∷ by_id) ts

-- the loop over the source modes of a recovered transition
check_source_modes : String → String → List String → List String → Check
check_source_modes id recovered own [] = ok tt
check_source_modes id recovered own (mode ∷ modes) = do
  refuse_if (not (contains own mode)) (cannot_recover_from id recovered mode)
  check_source_modes id recovered own modes

check_recovered : Transition → String → Option Transition → Check
unfolding check_source_modes
check_recovered t recovered none = err (recovers_unknown t.id recovered)
check_recovered t recovered (some r) =
    check_source_modes t.id recovered t.source_modes r.source_modes

-- the loop over the targets of one recovery transition
check_recovers : List (String × Transition) → Transition → List String → Check
unfolding check_recovered
check_recovers by_id t [] = ok tt
check_recovers by_id t (recovered ∷ rest) = do
  check_recovered t recovered (lookup_transition by_id recovered)
  check_recovers by_id t rest

-- the third loop of `prepare`
pub check_recoveries : List (String × Transition) → List Transition → Check
unfolding check_recovers
check_recoveries by_id [] = ok tt
check_recoveries by_id (t ∷ ts) = do
  refuse_if
      (not (is_empty t.recovers)
        && (is_scope_bound_exact t.objective_scope
            || not (preserves_objective t.objective_mutation)))
      (recovery_must_preserve t.id)
  check_recovers by_id t t.recovers
  check_recoveries by_id ts

-- the last loop of `prepare`; the set `recovered` holds what some transition recovers
pub check_recoverable : List Transition → List Transition → Check
check_recoverable all [] = ok tt
check_recoverable all (t ∷ ts) = do
  refuse_if (is_empty t.recovers && not (any_of (λ r. contains r.recovers t.id) all))
      (no_declared_recovery t.id)
  check_recoverable all ts
