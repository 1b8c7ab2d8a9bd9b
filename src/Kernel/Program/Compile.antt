-- ===== src/Kernel/Program/Compile.antt =====
-- Compiling and validating a control program, boatstack/kernel/program.go.
use boatstack.Base.{
  String, len, Bool, not, ◌&&◌, ◌||◌, ◌==◌, Option, none, some, List, [], ◌∷◌, contains, is_empty,
  eqb,
}
use boatstack.Base.Int.{eqb_ℤ}
use boatstack.Base.Sort.{sort}
use boatstack.Kernel.Types.{Transition, Program, ProgramIdentity, program_schema_version}
use boatstack.Kernel.Identifier.{semantic_id}
use boatstack.Kernel.Codec.{Codec, content_hash}
use boatstack.Kernel.Error.{
  Result, Check, ok, err, program_incomplete, program_contract_fingerprint,
  program_fingerprint_mismatch, ◌>>=◌, ◌>>◌, refuse_if,
}
use boatstack.Kernel.Program.{
  canonical_ids, canonical_transitions, transition_before, index_transitions, check_recoveries,
  check_recoverable, lookup_transition,
}

-- the first guard of `prepare`
abbrev pub lacks_fields : Program → Bool
lacks_fields p =
    not (eqb_ℤ p.schema_version program_schema_version)
    || not (semantic_id p.id)
    || p.version == ""
    || p.runtime_compatibility == ""
    || p.initial_mode == ""
    || is_empty p.marked_modes
    || is_empty p.transitions

-- the second guard of `prepare`
abbrev pub has_bad_contract : Program → Bool
has_bad_contract p =
    not (p.domain_contract_fingerprint == "") && not (eqb (len p.domain_contract_fingerprint) 64)

-- `prepare` from the sort on
unfoldable pub assemble : Program → List String → List Transition → Result Program
unfolding index_transitions check_recoveries check_recoverable
assemble p marked_modes transitions = do
  by_id ← index_transitions [] transitions
  check_recoveries by_id transitions
  check_recoverable transitions transitions
  ok (record p { marked_modes = marked_modes; transitions = transitions; by_id = some by_id })

-- `prepare` behind its guards
unfoldable pub canonicalize : Program → Result Program
unfolding canonical_transitions assemble
canonicalize p = do
  marked_modes ← canonical_ids p.marked_modes "marked mode"
  canonical ← canonical_transitions p.transitions
  assemble p marked_modes (sort transition_before canonical)

-- Program.prepare, which returns the program it was called on with its fields replaced
unfoldable pub prepare : Program → Result Program
unfolding canonicalize
prepare p = do
  refuse_if (lacks_fields p) program_incomplete
  refuse_if (has_bad_contract p) program_contract_fingerprint
  canonicalize p

-- the program that `contentHash` is taken of
abbrev pub unidentified : Program → Program
unidentified p = record p { fingerprint = ""; by_id = none }

module _ (codec : Codec) where
  -- CompileDomainProgram
  unfoldable pub compile_domain_program :
      String → String → String → String → String → List String → List Transition → Result Program
  unfolding prepare content_hash
  compile_domain_program id version compatibility contract initial marked transitions = do
    let draft : Program = record {
      schema_version = program_schema_version;
      id = id;
      version = version;
      runtime_compatibility = compatibility;
      domain_contract_fingerprint = contract;
      initial_mode = initial;
      marked_modes = marked;
      transitions = transitions;
      fingerprint = "";
      by_id = none;
    }
    program ← prepare draft
    fingerprint ← content_hash codec (codec.marshal_program (unidentified program))
    ok (record program { fingerprint = fingerprint })

  -- CompileProgram
  unfoldable pub compile_program :
      String → String → String → String → List String → List Transition → Result Program
  unfolding compile_domain_program
  compile_program id version compatibility initial marked transitions =
      compile_domain_program id version compatibility "" initial marked transitions

  -- `err != nil || want == "" || got != want`
  unfoldable pub fingerprint_matches : String → Result String → Check
  fingerprint_matches want (err _) = err program_fingerprint_mismatch
  fingerprint_matches want (ok got) =
      refuse_if (want == "" || not (got == want)) program_fingerprint_mismatch

  -- Program.Validate; `byID` is not marshalled, so the prepared copy is hashed as it is
  unfoldable pub validate_program : Program → Check
  unfolding prepare content_hash fingerprint_matches
  validate_program p = do
    copy ← prepare (unidentified p)
    fingerprint_matches p.fingerprint
        (content_hash codec (codec.marshal_program (unidentified copy)))

-- Program.Identity
unfoldable pub program_identity : Program → ProgramIdentity
program_identity p = record { id = p.id; version = p.version; fingerprint = p.fingerprint }

-- the look-up in a program that `prepare` returned; an error is an unknown transition
transition_of_prepared : Result Program → String → Option Transition
transition_of_prepared (err _) id = none
transition_of_prepared (ok copy) id = elim copy.by_id [
  | none ↦ none
  | some by_id ↦ lookup_transition by_id id
]

-- Program.Transition
find_transition_in : Program → Option (List (String × Transition)) → String → Option Transition
unfolding prepare transition_of_prepared
find_transition_in p none id = transition_of_prepared (prepare p) id
find_transition_in p (some by_id) id = lookup_transition by_id id

unfoldable pub find_transition : Program → String → Option Transition
unfolding find_transition_in
find_transition p id = find_transition_in p p.by_id id

-- Program.Marked
unfoldable pub is_marked : Program → String → Bool
is_marked p mode = contains p.marked_modes mode

-- the map that `Clone` fills, in the order in which it is filled
reindex : List (String × Transition) → List Transition → List (String × Transition)
reindex by_id [] = by_id
reindex by_id (t ∷ ts) = reindex ((t.id, t) ∷ by_id) ts

-- Program.Clone: the copies of the lists are the same lists
unfoldable pub clone_program : Program → Program
unfolding reindex
clone_program p = record p { by_id = some (reindex [] p.transitions) }
