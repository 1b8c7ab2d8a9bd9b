-- ===== src/Kernel/Relation/Selection.antt =====
-- Which candidate the relation prescribes.
use boatstack.Base.{
  ◌≢◌, String, ◌≡◌, refl, sym, ap, subst, ◌∙◌, ◌↔◌, inl, Bool, true, false, not, ◌&&◌, List, [],
  ◌∷◌, arith, ◌==◌, All-In, In, keep, keep_sound, map, if◌then◌else◌,
}
use boatstack.Base.Sort.{sort, sort-IsSorted, keep-sort, sort-one, IsSorted, sort-nil}
use boatstack.Base.Text.{str_ltb_irrefl}
use boatstack.Kernel.Trace.{DecisionKind, Decision}
use boatstack.Kernel.Relation.{
  RelationCandidate, RelationInput, candidate_before, as_preferred, missing_authority, eligible,
  choose, decide, several, requested_candidates,
}
use boatstack.Kernel.Relation.Grants.{Granted, missing_authority-nil_iff}
use boatstack.Kernel.Relation.Order.{
  outranks, candidate_order, equals_of_sorted, before_of_outranks,
}

-- what an explicit request leaves, or else what is selectable
abbrev pub is_eligible : RelationInput → RelationCandidate → Bool
is_eligible input c = if input.requested == "" then c.selectable else c.id == input.requested

-- `c` is the only eligible candidate that it does not outrank itself: it is preferred to all others.
abbrev pub IsPreferred : RelationInput → RelationCandidate → Type 0
IsPreferred input c =
    keep (λ x. not (outranks c x)) (keep (is_eligible input) input.candidates) ≡ c ∷ []

keep_by_case :
    (b : Bool) (f g : RelationCandidate → Bool) (xs : List RelationCandidate)
    → (let left = if b then xs else keep g xs in if b then keep f left else left)
      ≡ keep (λ x. if b then f x else g x) xs
keep_by_case true f g xs = refl
keep_by_case false f g xs = refl

pub IsPreferred-In :
    (input : RelationInput) (c : RelationCandidate) → IsPreferred input c → In c input.candidates
IsPreferred-In input c h =
    let (m, _) = keep_sound (λ x. not (outranks c x)) _ c (subst (In c) (sym h) (inl refl)) in
    (keep_sound (is_eligible input) input.candidates c m).0

pub IsPreferred-is_eligible :
    (input : RelationInput) (c : RelationCandidate)
    → IsPreferred input c
    → is_eligible input c ≡ true
IsPreferred-is_eligible input c h =
    let (m, _) = keep_sound (λ x. not (outranks c x)) _ c (subst (In c) (sym h) (inl refl)) in
    (keep_sound (is_eligible input) input.candidates c m).1

eligible-keep : (input : RelationInput) → eligible input ≡ keep (is_eligible input) input.candidates
unfolding eligible requested_candidates
eligible-keep input =
    keep_by_case (input.requested == "") (λ c. c.selectable) (λ c. c.id == input.requested)
      input.candidates

-- the same of the candidates that the code computes
abbrev IsAlone : RelationInput → RelationCandidate → Type 0
IsAlone input c = keep (λ x. not (outranks c x)) (eligible input) ≡ c ∷ []

IsAlone-iff :
    (input : RelationInput) (c : RelationCandidate) → IsAlone input c ↔ IsPreferred input c
IsAlone-iff input c = (
  subst (λ l. keep (λ x. not (outranks c x)) l ≡ c ∷ []) (eligible-keep input),
  subst (λ l. keep (λ x. not (outranks c x)) l ≡ c ∷ []) (sym (eligible-keep input)),
)

one_of_not_several :
    (x : RelationCandidate) (xs : List RelationCandidate)
    → several (map (λ c. c.id) (x ∷ xs)) ≡ false
    → xs ≡ []
one_of_not_several x [] e = refl
one_of_not_several x (y ∷ ys) e = cc

-- what `several` tests
one_equal :
    (top : RelationCandidate) (rest : List RelationCandidate)
    → several (map (λ c. c.id) (keep (as_preferred top) (top ∷ rest))) ≡ false
    → keep (as_preferred top) (top ∷ rest) ≡ top ∷ []
one_equal top rest e =
    let self : as_preferred top top ≡ true = ground arith in
    rw self (
      ap (λ (l : List RelationCandidate). top ∷ l)
        (one_of_not_several top (keep (as_preferred top) rest) (rw self at e)))

-- The first of the sorted candidates is the preferred one, if any is.
module _ (input : RelationInput) (top : RelationCandidate) (rest : List RelationCandidate)
    (sorted : sort candidate_before (eligible input) ≡ top ∷ rest) where
  in_order : IsSorted candidate_before (top ∷ rest)
  in_order =
      subst (IsSorted candidate_before) sorted (sort-IsSorted candidate_order (eligible input))

  equals_top : keep (as_preferred top) (top ∷ rest) ≡ keep (λ x. not (outranks top x)) (top ∷ rest)
  equals_top = equals_of_sorted top (top ∷ rest) (ground (arith, str_ltb_irrefl top.id), in_order.0)

  sorted_keep :
      (p : RelationCandidate → Bool)
      → keep p (top ∷ rest) ≡ sort candidate_before (keep p (eligible input))
  sorted_keep p = ap (keep p) (sym sorted) ∙ keep-sort candidate_order p (eligible input)

  preferred_of_one :
      several (map (λ c. c.id) (keep (as_preferred top) (top ∷ rest))) ≡ false → IsAlone input top
  preferred_of_one e =
      sort-one candidate_before top _
        (sym (sorted_keep (λ x. not (outranks top x))) ∙ sym equals_top ∙ one_equal top rest e)

  -- the other way round: a preferred candidate comes first, alone
  module _ (c : RelationCandidate) (preferred : IsAlone input c) where
    only_c : keep (λ x. not (outranks c x)) (top ∷ rest) ≡ c ∷ []
    unfolding sort
    only_c = sorted_keep (λ x. not (outranks c x)) ∙ ap (sort candidate_before) preferred

    c_not_before_top : candidate_before c top ≡ false
    c_not_before_top =
        All-In (λ x. candidate_before x top ≡ false) (top ∷ rest)
          (ground (arith, str_ltb_irrefl top.id), in_order.0)
          (keep_sound (λ x. not (outranks c x)) (top ∷ rest) c
            (subst (In c) (sym only_c) (inl refl))).0

    top_is_c : top ≡ c
    top_is_c = ground (arith, only_c, c_not_before_top, before_of_outranks c top)

    c_alone : several (map (λ x. x.id) (keep (as_preferred top) (top ∷ rest))) ≡ false
    c_alone =
        ap (λ (l : List RelationCandidate). several (map (λ x. x.id) l))
          (equals_top
            ∙ subst (λ t. keep (λ x. not (outranks t x)) (top ∷ rest) ≡ c ∷ []) (sym top_is_c)
                only_c)

abbrev pub is_shut : RelationInput → Bool
is_shut input = input.marked && input.requested == ""

-- a decision that prescribes comes from the sorted candidates
chosen_of_prescribed :
    (input : RelationInput)
    → input.no_candidate ≢ DecisionKind.prescribed
    → (decide input).kind ≡ DecisionKind.prescribed
    → (is_shut input ≡ false)
      × (decide input ≡ choose input (sort candidate_before (eligible input)))
unfolding decide
chosen_of_prescribed input n h = ground arith

decide-choose :
    (input : RelationInput) (c : RelationCandidate)
    → is_shut input ≡ false
    → IsAlone input c
    → decide input ≡ choose input (sort candidate_before (eligible input))
unfolding decide eligible
decide-choose input c open_ h = ground arith

choose_top :
    (input : RelationInput) (top : RelationCandidate) (rest : List RelationCandidate)
    → (choose input (top ∷ rest)).kind ≡ DecisionKind.prescribed
    → (several (map (λ x. x.id) (keep (as_preferred top) (top ∷ rest))) ≡ false)
      × (missing_authority top input.available ≡ [])
      × ((choose input (top ∷ rest)).transition ≡ top.id)
unfolding choose
choose_top input top rest h = ground arith

prefer_sound :
    (input : RelationInput) (l : List RelationCandidate)
    → sort candidate_before (eligible input) ≡ l
    → input.no_candidate ≢ DecisionKind.prescribed
    → (choose input l).kind ≡ DecisionKind.prescribed
    → (c : RelationCandidate) × IsAlone input c
      × Granted c input.available
      × ((choose input l).transition ≡ c.id)
unfolding choose
prefer_sound input [] s n k = absurd (ground arith)
prefer_sound input (top ∷ rest) s n k =
    let (alone, granted, named) = choose_top input top rest k in
    (
      top,
      preferred_of_one input top rest s alone,
      (missing_authority-nil_iff top input.available).0 granted,
      named,
    )

prefer_complete :
    (input : RelationInput) (l : List RelationCandidate) (c : RelationCandidate)
    → sort candidate_before (eligible input) ≡ l
    → IsAlone input c
    → Granted c input.available
    → ((choose input l).kind ≡ DecisionKind.prescribed) × ((choose input l).transition ≡ c.id)
unfolding choose
prefer_complete input [] c s p g =
    let none_left : [] ≡ c ∷ [] =
      subst (λ l. keep (λ x. not (outranks c x)) l ≡ c ∷ []) (sort-nil candidate_before _ s) p in
    cc
prefer_complete input (top ∷ rest) c s p g =
    let same = top_is_c input top rest s c p in
    let granted : missing_authority top input.available ≡ [] =
      subst (λ t. missing_authority t input.available ≡ []) (sym same)
        ((missing_authority-nil_iff c input.available).1 g) in
    ground (arith, c_alone input top rest s c p, granted, same)

-- `relate` prescribes the transition `t` exactly when there is no marked state to stop at (or a
-- transition was requested) and `t` names a candidate that is preferred to every other eligible one
-- and whose required authority is available. The caller's NoCandidate kind is not PRESCRIBED.
pub prescribed_iff :
    (input : RelationInput) (t : String)
    → input.no_candidate ≢ DecisionKind.prescribed
    → (((decide input).kind ≡ DecisionKind.prescribed) × ((decide input).transition ≡ t)) ↔ (
        (is_shut input ≡ false)
        × ((c : RelationCandidate) × IsPreferred input c × Granted c input.available × (c.id ≡ t)))
prescribed_iff input t n = (
  λ (k, named).
      let (unmarked, chosen) = chosen_of_prescribed input n k in
      let (c, alone, granted, is) =
        prefer_sound input _ refl n (ap (λ (d : Decision). d.kind) (sym chosen) ∙ k) in
      (
        unmarked,
        (
          c,
          (IsAlone-iff input c).0 alone,
          granted,
          sym is ∙ ap (λ (d : Decision). d.transition) (sym chosen) ∙ named,
        ),
      ),
  λ (unmarked, (c, preferred, granted, named)).
      let alone = (IsAlone-iff input c).1 preferred in
      let chosen = decide-choose input c unmarked alone in
      let (k, is) = prefer_complete input _ c refl alone granted in
      (
        ap (λ (d : Decision). d.kind) chosen ∙ k,
        ap (λ (d : Decision). d.transition) chosen ∙ is ∙ named,
      ),
)
