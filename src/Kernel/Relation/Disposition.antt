-- ===== src/Kernel/Relation/Disposition.antt =====
-- What the traces of the relation say of the decision.
use boatstack.Base.{
  String, ◌≡◌, ◌≢◌, refl, sym, subst, ◌∙◌, ◌↔◌, ◌⊎◌, inl, inr, false, not, ◌&&◌, ◌==◌, arith,
  eq_iff, Bool-cases, In, keep_sound, if◌then◌else◌,
}
use boatstack.Kernel.Trace.{DecisionKind, Decision, CandidateDisposition, CandidateTrace}
use boatstack.Kernel.Relation.{
  RelationCandidate, RelationInput, dispose, finish_trace, initial_trace, decide,
}
use boatstack.Kernel.Relation.Order.{outranks}
use boatstack.Kernel.Relation.Selection.{prescribed_iff, IsPreferred, is_eligible}

-- the trace of a candidate after the decision
abbrev pub trace_of : RelationInput → RelationCandidate → CandidateTrace
trace_of input c = finish_trace input.requested (decide input) (initial_trace input.available c)

-- The decision prescribes the candidate.
abbrev pub IsPrescribed : Decision → String → Type 0
IsPrescribed d id = (d.kind ≡ DecisionKind.prescribed) × (d.transition ≡ id)

dispose-selected :
    (requested : String) (d : Decision) (t : CandidateTrace)
    → (dispose requested d t).disposition ≡ CandidateDisposition.selected
    → t.disposition ≡ CandidateDisposition.shadowed
    → IsPrescribed d t.transition_id
unfolding dispose
dispose-selected requested d t h fresh = ground (arith, eq_iff t.transition_id d.transition)

selected-dispose :
    (requested : String) (d : Decision) (t : CandidateTrace)
    → (requested ≡ "") ⊎ (t.transition_id ≡ requested)
    → IsPrescribed d t.transition_id
    → (dispose requested d t).disposition ≡ CandidateDisposition.selected
unfolding dispose
selected-dispose requested d t asked (k, named) = ground (
  arith,
  eq_iff requested "",
  eq_iff t.transition_id requested,
  eq_iff t.transition_id d.transition,
)

-- what the loop of `finish` starts the switch with
abbrev started : RelationInput → RelationCandidate → CandidateTrace
started input c =
    let fresh = initial_trace input.available c in
    if input.requested == "" && not fresh.selectable
    then record fresh { survived = false }
    else fresh

started-fresh :
    (input : RelationInput) (c : RelationCandidate)
    → ((started input c).disposition ≡ CandidateDisposition.shadowed)
      × ((started input c).transition_id ≡ c.id)
unfolding initial_trace
started-fresh input c = elim (Bool-cases (input.requested == "" && not c.selectable)) [
  | inl e ↦ rw e (refl, refl)
  | inr e ↦ rw e (refl, refl)
]

IsPreferred-asked :
    (input : RelationInput) (c : RelationCandidate)
    → IsPreferred input c
    → (input.requested ≡ "") ⊎ (c.id ≡ input.requested)
IsPreferred-asked input c h =
    let (m, _) = keep_sound (λ x. not (outranks c x)) _ c (subst (In c) (sym h) (inl refl)) in
    let (_, fits) = keep_sound (is_eligible input) input.candidates c m in
    elim (Bool-cases (input.requested == "")) [
      | inl e ↦ inl ((eq_iff input.requested "").0 e)
      | inr e ↦ inr ((eq_iff c.id input.requested).0 (ground (arith, fits, e)))
    ]

-- The trace of a candidate says that it was selected exactly when the decision prescribes it. The
-- caller's NoCandidate kind is not PRESCRIBED.
pub selected_iff :
    (input : RelationInput) (c : RelationCandidate)
    → input.no_candidate ≢ DecisionKind.prescribed
    → ((trace_of input c).disposition ≡ CandidateDisposition.selected)
      ↔ IsPrescribed (decide input) c.id
unfolding finish_trace
selected_iff input c n =
    let (fresh, same) = started-fresh input c in
    (
      λ h.
          subst (IsPrescribed (decide input)) same
            (dispose-selected input.requested (decide input) (started input c) h fresh),
      λ (k, named).
          let (_, (d, preferred, _, is)) = (prescribed_iff input c.id n).0 (k, named) in
          selected-dispose input.requested (decide input) (started input c)
            (elim (IsPreferred-asked input d preferred) [
              | inl free ↦ inl free
              | inr wanted ↦ inr (same ∙ sym is ∙ wanted)
            ])
            (k, named ∙ sym same),
    )
