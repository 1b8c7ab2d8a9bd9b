-- ===== src/Integer/CompareAndSwap.antt =====
-- What the compare-and-swap of the reference store excludes, and what its counters count.
use boatstack.Base.{
  String, Bool-cases, inl, inr, eqb_iff, ◌∙◌, ℕ, suc, ◌≡◌, ◌≢◌, refl, sym, ap, subst, eqb, List, [],
  ◌∷◌, ◌++◌, arith, length, ◌<◌, ◌^◌,
}
use boatstack.Base.Int.{ℤ, ltb_ℤ}
use boatstack.Kernel.Types.{Objective, ControlState, Receipt, ProgramIdentity}
use boatstack.Kernel.Codec.{Codec}
use boatstack.Kernel.Error.{ok, >>=-eq-ok, ok-injective}
use boatstack.Kernel.Objective.{bind_objective_to}
use boatstack.Integer.Formats.{next_int}
use boatstack.Integer.Store.{
  MemoryStateStore, load, begin_effect, commit_transition, fail_next_commit, retarget,
  bump_revision, retarget_program, rebind,
}

-- The operations of the store, as steps.
pub data Step : MemoryStateStore → MemoryStateStore → Type 0 where
  loads : (s : MemoryStateStore) (id : String) → Step s (load id s).1
  begins : (s : MemoryStateStore) (n : ℕ) (t : ControlState) → Step s (begin_effect n t s).1
  commits :
      (s : MemoryStateStore) (n : ℕ) (t : ControlState) (r : Receipt)
      → Step s (commit_transition n t r s).1
  fails_next : (s : MemoryStateStore) → Step s (fail_next_commit s)
  retargets : (s : MemoryStateStore) (id : String) → Step s (retarget id s)
  bumps : (s : MemoryStateStore) → Step s (bump_revision s)
  retargets_program : (s : MemoryStateStore) (p : ProgramIdentity) → Step s (retarget_program p s)
  rebinds :
      (s s' : MemoryStateStore) (codec : Codec) (o : Objective)
      → rebind codec o s ≡ ok s'
      → Step s s'

pub data Steps : MemoryStateStore → MemoryStateStore → Type 0 where
  at_rest : (s : MemoryStateStore) → Steps s s
  followed : {s t u : MemoryStateStore} → Steps s t → Step t u → Steps s u

-- as many commits as receipts, while an `int` can count them
abbrev pub IsCounted : MemoryStateStore → Type 0
IsCounted s = length s.receipts < 2 ^ 63 → s.commit_count ≡ ℤ.pos (length s.receipts)

length-append : (rs : List Receipt) (r : Receipt) → length (rs ++ r ∷ []) ≡ suc (length rs)
length-append [] r = refl
length-append (x ∷ rs) r = ap suc (length-append rs r)

count-append :
    (s : MemoryStateStore) (r : Receipt)
    → IsCounted s
    → length (s.receipts ++ r ∷ []) < 2 ^ 63
    → next_int s.commit_count ≡ ℤ.pos (length (s.receipts ++ r ∷ []))
unfolding next_int
count-append s r h small =
    let grown = length-append s.receipts r in rw (h (omega arith), grown) (ground arith)

Step-IsCounted : {s t : MemoryStateStore} → Step s t → IsCounted s → IsCounted t
unfolding load begin_effect commit_transition fail_next_commit retarget bump_revision
    retarget_program rebind
Step-IsCounted (Step.loads s id) h = h
Step-IsCounted (Step.begins s n t) h = elim (Bool-cases (eqb s.state.revision n)) [
  | inl e ↦ rw e h
  | inr e ↦ rw e h
]
Step-IsCounted (Step.commits s n t r) h = elim (Bool-cases (ltb_ℤ (ℤ.pos 0) s.commit_failures)) [
  | inl failing ↦ rw failing h
  | inr sound ↦ elim (Bool-cases (eqb s.state.revision n)) [
    | inl e ↦ rw (sound, e) (count-append s r h)
    | inr e ↦ rw (sound, e) h
  ]
]
Step-IsCounted (Step.fails_next s) h = h
Step-IsCounted (Step.retargets s id) h = h
Step-IsCounted (Step.bumps s) h = h
Step-IsCounted (Step.retargets_program s p) h = h
Step-IsCounted (Step.rebinds s s' codec o e) h =
    let (binding, _, is) = >>=-eq-ok (bind_objective_to codec o) _ e in
    subst IsCounted (ok-injective _ s' is) h

-- In a store that starts with as many commits as receipts, every sequence of its operations keeps
-- the two numbers equal, as long as there are fewer than 2^63 receipts.
pub Steps-IsCounted : {s t : MemoryStateStore} → Steps s t → IsCounted s → IsCounted t
Steps-IsCounted (Steps.at_rest s) h = h
Steps-IsCounted (Steps.followed before step) h = Step-IsCounted step (Steps-IsCounted before h)

-- a commit that succeeds found the revision, and leaves the state that it was given
commit_transition-eq-ok :
    (s : MemoryStateStore) (n : ℕ) (t : ControlState) (r : Receipt)
    → (commit_transition n t r s).0 ≡ ok tt
    → (s.state.revision ≡ n) × ((commit_transition n t r s).1.state ≡ t)
unfolding commit_transition
commit_transition-eq-ok s n t r h = elim (Bool-cases (ltb_ℤ (ℤ.pos 0) s.commit_failures)) [
  | inl failing ↦ absurd (ground arith)
  | inr sound ↦ elim (Bool-cases (eqb s.state.revision n)) [
    | inl e ↦ ((eqb_iff s.state.revision n).0 e, rw (sound, e))
    | inr e ↦ absurd (ground arith)
  ]
]

-- Two commits on the same revision do not both succeed, unless the first one leaves the revision
-- as it was.
pub commit_transition-once :
    (s : MemoryStateStore) (n : ℕ) (t u : ControlState) (r q : Receipt)
    → (commit_transition n t r s).0 ≡ ok tt
    → t.revision ≢ n
    → (commit_transition n u q (commit_transition n t r s).1).0 ≢ ok tt
commit_transition-once s n t u r q h changed again =
    let (_, first) = commit_transition-eq-ok s n t r h in
    let (second, _) = commit_transition-eq-ok (commit_transition n t r s).1 n u q again in
    changed (ap (λ (c : ControlState). c.revision) (sym first) ∙ second)
