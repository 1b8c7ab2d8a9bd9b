-- ===== src/Kernel/Relation.antt =====
-- The canonical selection relation, boatstack/kernel/relation.go.
pub mod Order
pub mod Grants
pub mod Selection
pub mod Disposition
use boatstack.Base.{
  String, Bool, true, false, not, ◌&&◌, ◌||◌, ◌==◌, List, [], ◌∷◌, ◌++◌, map, keep, contains,
  any_of, is_empty, if◌then◌else◌,
}
use boatstack.Base.Int.{ℤ, ltb_ℤ, eqb_ℤ}
use boatstack.Base.Text.{str_ltb}
use boatstack.Base.Sort.{sort}
use boatstack.Kernel.Types.{Capability}
use boatstack.Kernel.Error.{
  Reason, marked_state_established, requested_not_admissible, none_admissible, none_selectable,
  equally_preferred, admitted_highest_priority, capabilities_unavailable,
}
use boatstack.Kernel.Trace.{
  DecisionKind, Decision, AuthorityTrace, CandidateTrace, CandidateDisposition, not_evaluated,
}

pub record RelationCandidate : Type 0 where
  pub id : String
  pub rank : ℤ  -- int
  pub priority : ℤ  -- int
  pub selectable : Bool
  pub required_all : List Capability
  pub required_any : List Capability

pub record RelationInput : Type 0 where
  pub requested : String
  pub marked : Bool
  pub no_candidate : DecisionKind
  pub candidates : List RelationCandidate
  pub available : List Capability

-- the `less` of the sort: by rank, then priority, then identity
abbrev pub candidate_before : RelationCandidate → RelationCandidate → Bool
candidate_before a b =
    if not (eqb_ℤ a.rank b.rank)
    then ltb_ℤ a.rank b.rank
    else if not (eqb_ℤ a.priority b.priority)
    then ltb_ℤ a.priority b.priority
    else str_ltb a.id b.id

-- the values of a list that are not available
abbrev pub unavailable : List Capability → List Capability → List Capability
unavailable available = keep (λ value. not (contains available value))

-- what `RequiredAny` adds to `missing`
missing_any_of : List Capability → List Capability → List Capability
missing_any_of [] available = []
missing_any_of (value ∷ values) available =
    if any_of (contains available) (value ∷ values) then [] else value ∷ values

-- missingAuthority
unfoldable pub missing_authority : RelationCandidate → List Capability → List Capability
unfolding missing_any_of
missing_authority candidate available = sort str_ltb (
    unavailable available candidate.required_all ++ missing_any_of candidate.required_any available)

-- authorityTrace
unfoldable pub authority_trace : RelationCandidate → List Capability → AuthorityTrace
authority_trace candidate available =
    let missing_all = unavailable available candidate.required_all in
    let all_satisfied = is_empty missing_all in
    let any_satisfied =
      is_empty candidate.required_any || any_of (contains available) candidate.required_any in
    record {
      available = sort str_ltb available;
      required_all = sort str_ltb candidate.required_all;
      required_any = sort str_ltb candidate.required_any;
      missing_all = sort str_ltb missing_all;
      missing_any = sort str_ltb (if any_satisfied then [] else candidate.required_any);
      all_satisfied = all_satisfied;
      any_satisfied = any_satisfied;
      satisfied = all_satisfied && any_satisfied;
    }

-- the trace that `relate` starts a candidate with
unfoldable pub initial_trace : List Capability → RelationCandidate → CandidateTrace
unfolding authority_trace
initial_trace available candidate = record {
  transition_id = candidate.id;
  source_mode = not_evaluated;
  recovery_compatible = not_evaluated;
  objective_scope = not_evaluated;
  objective_mutation = not_evaluated;
  domain_admissible = not_evaluated;
  selection = not_evaluated;
  selectable = candidate.selectable;
  selection_class = "";
  rank = candidate.rank;
  priority = candidate.priority;
  authority = authority_trace candidate available;
  survived = true;
  disposition = CandidateDisposition.shadowed;
}

abbrev pub is_prescribed : DecisionKind → Bool
is_prescribed DecisionKind.prescribed = true
is_prescribed _ = false

abbrev is_frontier : DecisionKind → Bool
is_frontier DecisionKind.frontier = true
is_frontier _ = false

abbrev is_refused : DecisionKind → Bool
is_refused DecisionKind.refused = true
is_refused _ = false

-- the `switch` of `finish` on one trace
dispose : String → Decision → CandidateTrace → CandidateTrace
dispose requested decision trace =
    if not (requested == "") && not (trace.transition_id == requested)
    then record trace { disposition = CandidateDisposition.irrelevant_to_request; survived = false }
    else if is_prescribed decision.kind && trace.transition_id == decision.transition
    then record trace { disposition = CandidateDisposition.selected }
    else if is_frontier decision.kind && decision.transition == trace.transition_id
    then record trace { disposition = CandidateDisposition.authority_frontier }
    else if is_frontier decision.kind && contains decision.candidates trace.transition_id
    then record trace { disposition = CandidateDisposition.ambiguous }
    else if is_refused decision.kind && requested == trace.transition_id
    then record trace { disposition = CandidateDisposition.explicitly_refused }
    else trace

-- one round of the loop of `finish`
unfoldable pub finish_trace : String → Decision → CandidateTrace → CandidateTrace
unfolding dispose
finish_trace requested decision trace =
    dispose requested decision
      (if requested == "" && not trace.selectable then record trace { survived = false } else trace)

-- `input.NoCandidate`, and Unresolved where that is empty
abbrev or_unresolved : DecisionKind → DecisionKind
or_unresolved DecisionKind.unset = DecisionKind.unresolved
or_unresolved kind = kind

-- a decision that names no transition
abbrev decide_nothing : DecisionKind → Reason → Decision
decide_nothing kind reason = record {
  kind = kind;
  transition = "";
  candidates = [];
  reason = reason;
}

-- the candidates that an explicit request leaves
unfoldable pub requested_candidates : RelationInput → List RelationCandidate
requested_candidates input =
    if input.requested == ""
    then input.candidates
    else keep (λ c. c.id == input.requested) input.candidates

-- without a request, those of them that are selectable
unfoldable pub eligible : RelationInput → List RelationCandidate
unfolding requested_candidates
eligible input =
    if input.requested == ""
    then keep (λ c. c.selectable) (requested_candidates input)
    else requested_candidates input

abbrev as_preferred : RelationCandidate → RelationCandidate → Bool
as_preferred top c = eqb_ℤ c.rank top.rank && eqb_ℤ c.priority top.priority

-- `len(equal) > 1`
abbrev several : List String → Bool
several [] = false
several (_ ∷ []) = false
several (_ ∷ _ ∷ _) = true

-- the decision on the one most preferred candidate
admit_top : RelationCandidate → List Capability → Decision
admit_top top missing =
    if is_empty missing
    then record {
      kind = DecisionKind.prescribed;
      transition = top.id;
      candidates = [];
      reason = admitted_highest_priority;
    }
    else record {
      kind = DecisionKind.frontier;
      transition = top.id;
      candidates = top.id ∷ [];
      reason = capabilities_unavailable missing;
    }

-- the end of `relate` on the sorted candidates, which are one at least
unfoldable pub choose : RelationInput → List RelationCandidate → Decision
unfolding admit_top
choose input [] = decide_nothing (or_unresolved input.no_candidate) none_selectable
choose input (top ∷ rest) =
    let equal = map (λ c. c.id) (keep (as_preferred top) (top ∷ rest)) in
    if several equal
    then record {
      kind = DecisionKind.frontier;
      transition = "";
      candidates = equal;
      reason = equally_preferred;
    }
    else admit_top top (missing_authority top input.available)

-- the decision of `relate`
unfoldable pub decide : RelationInput → Decision
decide input =
    if input.marked && input.requested == ""
    then decide_nothing DecisionKind.marked marked_state_established
    else if is_empty (requested_candidates input)
    then (if input.requested == ""
        then decide_nothing (or_unresolved input.no_candidate) none_admissible
        else record {
          kind = DecisionKind.refused;
          transition = input.requested;
          candidates = [];
          reason = requested_not_admissible;
        })
    else if is_empty (eligible input)
    then decide_nothing (or_unresolved input.no_candidate) none_selectable
    else choose input (sort candidate_before (eligible input))

-- relate: the decision, and the trace of each candidate
unfoldable pub relate : RelationInput → Decision × List CandidateTrace
unfolding initial_trace finish_trace
relate input =
    let decision = decide input in
    (
      decision,
      map (λ c. finish_trace input.requested decision (initial_trace input.available c))
          input.candidates,
    )

-- Relate
unfoldable pub relate_decision : RelationInput → Decision
unfolding relate
relate_decision input = (relate input).0
