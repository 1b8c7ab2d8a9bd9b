-- ===== src/Kernel/Program/RoundTrip.antt =====
-- What the compilers of programs return, Program.Validate accepts.
use boatstack.Base.{
  Option, String, eq_iff, false, none, some, List, [], ◌∷◌, is_empty, ◌≡◌, ◌≢◌, refl, sym, ap, ◌∙◌,
  subst, arith,
}
use boatstack.Base.Text.{str_ltb}
use boatstack.Base.Sort.{sort, is_empty-sort}
use boatstack.Kernel.Types.{Transition, Program, program_schema_version}
use boatstack.Kernel.Identifier.{semantic_id}
use boatstack.Kernel.Codec.{Codec, content_hash}
use boatstack.Kernel.Error.{
  ok, program_incomplete, program_contract_fingerprint, >>=-eq-ok, check-then, refuse_if-then,
  ok-injective,
}
use boatstack.Kernel.Program.{
  canonical_ids, canonical_transition, canonical_transitions, check_sorted, not_semantic,
  transition_before, index_transitions, check_recoveries, check_recoverable,
}
use boatstack.Kernel.Program.Canonical.{canonical_ids-twice, sorted_transitions-twice}
use boatstack.Kernel.Program.Compile.{
  assemble, canonicalize, compile_domain_program, fingerprint_matches, has_bad_contract,
  lacks_fields, prepare, unidentified, validate_program,
}

is_empty-canonical_ids :
    (values result : List String) (label : String)
    → canonical_ids values label ≡ ok result
    → is_empty result ≡ is_empty values
unfolding canonical_ids
is_empty-canonical_ids values result label h =
    let (_, same) =
      check-then (check_sorted semantic_id (not_semantic label) label none (sort str_ltb values)) _
        h in
    ap is_empty (sym (ok-injective (sort str_ltb values) result same))
    ∙ is_empty-sort str_ltb values

is_empty-canonical_transitions :
    (ts cs : List Transition) → canonical_transitions ts ≡ ok cs → is_empty cs ≡ is_empty ts
unfolding canonical_transitions
is_empty-canonical_transitions [] cs h = ap is_empty (sym (ok-injective [] cs h))
is_empty-canonical_transitions (t ∷ ts) cs h =
    let (c, _, h) = >>=-eq-ok (canonical_transition t) _ h in
    let (rest, _, h) = >>=-eq-ok (canonical_transitions ts) _ h in
    ap is_empty (sym (ok-injective (c ∷ rest) cs h))

-- A program in canonical form, with its index.
abbrev indexed : Program → List String → List Transition → List (String × Transition) → Program
indexed p marked transitions by_id = record p {
  marked_modes = marked;
  transitions = transitions;
  by_id = some by_id;
}

-- `prepare` of a program in canonical form.
prepare_fixed :
    (p : Program) (marked : List String) (transitions : List Transition)
    (by_id : List (String × Transition))
    → lacks_fields p ≡ false
    → has_bad_contract p ≡ false
    → is_empty marked ≡ is_empty p.marked_modes
    → is_empty transitions ≡ is_empty p.transitions
    → canonical_ids marked "marked mode" ≡ ok marked
    → canonical_transitions transitions ≡ ok transitions
    → sort transition_before transitions ≡ transitions
    → index_transitions [] transitions ≡ ok by_id
    → check_recoveries by_id transitions ≡ ok tt
    → check_recoverable transitions transitions ≡ ok tt
    → prepare (unidentified (indexed p marked transitions by_id))
      ≡ ok (record (indexed p marked transitions by_id) { fingerprint = "" })
unfolding prepare canonicalize assemble
prepare_fixed p marked transitions by_id complete contract modes_eq transitions_eq modes fixed
      sorted finds recovers recoverable =
    rw
      (
        modes_eq, transitions_eq, complete, contract, modes, fixed, sorted, finds, recovers,
        recoverable,
      )
      refl

-- What `prepare` returns is prepared: it returns it again, whatever the fingerprint and the index.
prepare-twice :
    (p q : Program)
    → prepare p ≡ ok q
    → prepare (unidentified q) ≡ ok (record q { fingerprint = "" })
unfolding prepare canonicalize assemble
prepare-twice p q h =
    let (complete, h) = refuse_if-then (lacks_fields p) program_incomplete _ h in
    let (contract, h) = refuse_if-then (has_bad_contract p) program_contract_fingerprint _ h in
    let (marked, m, h) = >>=-eq-ok (canonical_ids p.marked_modes "marked mode") _ h in
    let (cs, c, h) = >>=-eq-ok (canonical_transitions p.transitions) _ h in
    let ts = sort transition_before cs in
    let (by_id, finds, h) = >>=-eq-ok (index_transitions [] ts) _ h in
    let (recovers, h) = check-then (check_recoveries by_id ts) _ h in
    let (recoverable, h) = check-then (check_recoverable ts ts) _ h in
    let (fixed, sorted) = sorted_transitions-twice p.transitions cs c in
    subst (λ q. prepare (unidentified q) ≡ ok (record q { fingerprint = "" }))
      (ok-injective (indexed p marked ts by_id) q h)
      (prepare_fixed p marked ts by_id complete contract
        (is_empty-canonical_ids p.marked_modes marked "marked mode" m)
        (is_empty-sort transition_before cs ∙ is_empty-canonical_transitions p.transitions cs c)
        (canonical_ids-twice p.marked_modes marked "marked mode" m) fixed sorted finds recovers
        recoverable)

module _ (codec : Codec) (is_printed : (text : String) → codec.sha256_hex text ≢ "") where
  fingerprint_matches_self :
      (encoded : Option String) (print : String)
      → content_hash codec encoded ≡ ok print
      → fingerprint_matches codec print (content_hash codec encoded) ≡ ok tt
  unfolding content_hash fingerprint_matches
  fingerprint_matches_self none print h = cc
  fingerprint_matches_self (some text) print h =
      let same = ok-injective (codec.sha256_hex text) print h in
      subst (λ f. fingerprint_matches codec f (ok (codec.sha256_hex text)) ≡ ok tt) same
        (ground (
          arith,
          is_printed text,
          eq_iff (codec.sha256_hex text) "",
          eq_iff (codec.sha256_hex text) (codec.sha256_hex text),
        ))

-- Where SHA-256 prints no empty text, Validate accepts every program that CompileDomainProgram
-- returns.
pub compile-validate :
    (codec : Codec)
    → ((text : String) → codec.sha256_hex text ≢ "")
    → (id version compatibility contract initial : String) (marked : List String)
      (transitions : List Transition) (p : Program)
    → compile_domain_program codec id version compatibility contract initial marked transitions
      ≡ ok p
    → validate_program codec p ≡ ok tt
unfolding compile_domain_program validate_program
compile-validate codec is_printed id version compatibility contract initial marked transitions p h =
    let draft : Program = record {
      schema_version = program_schema_version;
      id = id;
      version = version;
      runtime_compatibility = compatibility;
      domain_contract_fingerprint = contract;
      initial_mode = initial;
      marked_modes = marked;
      transitions = transitions;
      fingerprint = "";
      by_id = none;
    } in
    let (q, prepared, h) = >>=-eq-ok (prepare draft) _ h in
    let (print, hashed, h) =
      >>=-eq-ok (content_hash codec (codec.marshal_program (unidentified q))) _ h in
    subst (λ p. validate_program codec p ≡ ok tt)
      (ok-injective (record q { fingerprint = print }) p h)
      (rw (prepare-twice draft q prepared) (
        fingerprint_matches_self codec is_printed (codec.marshal_program (unidentified q)) print
          hashed))
