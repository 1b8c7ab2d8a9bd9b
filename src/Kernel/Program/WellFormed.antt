-- ===== src/Kernel/Program/WellFormed.antt =====
-- What a prepared control program satisfies.
use boatstack.Base.{◌≡◌, refl, sym, subst, ◌∙◌, inl, inr, String, some, List, [], ◌∷◌, All, In}
use boatstack.Base.Sort.{sort}
use boatstack.Kernel.Types.{Transition, Program}
use boatstack.Kernel.Error.{
  program_incomplete, program_contract_fingerprint, refuse_if, Result, Check, ok, ◌>>=◌, ◌>>◌,
  >>=-eq-ok, ok-injective, check-then,
}
use boatstack.Kernel.Program.{
  lookup_transition, index_transitions, check_recoveries, check_recoverable, validate_transition,
  transition_before, canonical_transitions, canonical_ids,
}
use boatstack.Kernel.Program.Compile.{
  prepare, find_transition, assemble, canonicalize, lacks_fields, has_bad_contract,
}
use boatstack.Kernel.Program.Indexed.{HasDistinctIds, Indexes, index-Indexes}
use boatstack.Kernel.Program.Recoveries.{
  Covers, HasRecovery, check_recoveries-Covers, check_recoverable-HasRecovery,
}

-- A prepared program: its transitions are valid and have different identities, each is found under
-- its own, what one recovers belongs to the program and starts from no other mode than the recovery
-- does, and each has a recovery.
pub record IsPrepared (p : Program) : Type 0 where
  pub valid : All (λ t. validate_transition t ≡ ok tt) p.transitions
  pub distinct : HasDistinctIds p.transitions
  pub found : All (λ t. find_transition p t.id ≡ some t) p.transitions
  pub only :
      (id : String) (t : Transition)
      → find_transition p id ≡ some t
      → In t p.transitions × (t.id ≡ id)
  pub covers : All (λ t. All (Covers p.transitions t) t.recovers) p.transitions
  pub recoverable : All (HasRecovery p.transitions) p.transitions

find_indexed :
    (p : Program) (by_id : List (String × Transition)) (id : String)
    → p.by_id ≡ some by_id
    → find_transition p id ≡ lookup_transition by_id id
unfolding find_transition
find_indexed p by_id id e = rw e

found_indexed :
    (p : Program) (by_id : List (String × Transition)) (ts : List Transition)
    → p.by_id ≡ some by_id
    → All (λ t. lookup_transition by_id t.id ≡ some t) ts
    → All (λ t. find_transition p t.id ≡ some t) ts
found_indexed p by_id [] e h = tt
found_indexed p by_id (t ∷ ts) e h =
    (find_indexed p by_id t.id e ∙ h.0, found_indexed p by_id ts e h.1)

only_indexed :
    (by_id : List (String × Transition)) (ts : List Transition) (k : String) (u : Transition)
    → Indexes [] ts by_id
    → lookup_transition by_id k ≡ some u
    → In u ts × (u.id ≡ k)
unfolding lookup_transition
only_indexed by_id ts k u index e = elim (index.only k u e) [ inl found ↦ found | inr nothing ↦ cc ]

index-IsPrepared :
    (p : Program) (by_id : List (String × Transition))
    → p.by_id ≡ some by_id
    → Indexes [] p.transitions by_id
    → check_recoveries by_id p.transitions ≡ ok tt
    → check_recoverable p.transitions p.transitions ≡ ok tt
    → IsPrepared p
index-IsPrepared p by_id e index recoveries recoverable = record {
  valid = index.valid;
  distinct = index.distinct;
  found = found_indexed p by_id p.transitions e index.found;
  only =
      λ id t h. only_indexed by_id p.transitions id t index (sym (find_indexed p by_id id e) ∙ h);
  covers = check_recoveries-Covers index p.transitions recoveries;
  recoverable = check_recoverable-HasRecovery p.transitions p.transitions recoverable;
}

assemble-IsPrepared :
    (p : Program) (marked : List String) (ts : List Transition) (q : Program)
    → assemble p marked ts ≡ ok q
    → IsPrepared q
unfolding assemble
assemble-IsPrepared p marked ts q h =
    let prepared : List (String × Transition) → Program =
      λ by_id. record p { marked_modes = marked; transitions = ts; by_id = some by_id } in
    let last : List (String × Transition) → Result Program = λ by_id. ok (prepared by_id) in
    let third : List (String × Transition) → Result Program =
      λ by_id. check_recoverable ts ts >> last by_id in
    let (by_id, indexed, checked) =
      >>=-eq-ok (index_transitions [] ts) (λ m. check_recoveries m ts >> third m) h in
    let (recoveries, rest) = check-then (check_recoveries by_id ts) (third by_id) checked in
    let (recoverable, end) = check-then (check_recoverable ts ts) (last by_id) rest in
    subst IsPrepared (ok-injective (prepared by_id) q end) (
      index-IsPrepared (prepared by_id) by_id refl (index-Indexes [] ts by_id indexed) recoveries
        recoverable)

-- What `prepare` returns: its transitions are valid and have different identities, a look-up finds
-- each under its own identity and finds nothing else, each transition that one recovers belongs to
-- the program and has no source mode that the recovery lacks, and each transition either recovers
-- something or is recovered by one of the program.
pub prepare-IsPrepared : (p q : Program) → prepare p ≡ ok q → IsPrepared q
unfolding prepare canonicalize
prepare-IsPrepared p q h =
    let bound : List String → Result Program = λ modes.
      canonical_transitions p.transitions >>= λ ts. assemble p modes (sort transition_before ts) in
    let body : Result Program = canonical_ids p.marked_modes "marked mode" >>= bound in
    let second : Check = refuse_if (has_bad_contract p) program_contract_fingerprint in
    let (_, named) =
      check-then (refuse_if (lacks_fields p) program_incomplete) (second >> body) h in
    let (_, contracted) = check-then second body named in
    let (modes, _, marked) =
      >>=-eq-ok (canonical_ids p.marked_modes "marked mode") bound contracted in
    let (ts, _, sorted) =
      >>=-eq-ok (canonical_transitions p.transitions)
        (λ ts. assemble p modes (sort transition_before ts)) marked in
    assemble-IsPrepared p modes (sort transition_before ts) q sorted
