-- ===== src/Delivery/Catalog/Evaluation/Condition.antt =====
-- What FacetCondition.Evaluate and Transition.SourceEvaluation of
-- boatstack/internal/softwaredelivery/catalog/transition.go decide.
use boatstack.Base.{
  String, Bool, true, ◌&&◌, ◌||◌, Option, none, some, List, [], ◌∷◌, In, inl, inr, ◌⊎◌, ◌≡◌, ◌↔◌,
  refl, sym, ap, ◌∙◌, arith, Bool-cases, Option-cases, contains, contains→In, In→contains, is_empty,
}
use boatstack.Delivery.Model.FactStatus.{FactStatus}
use boatstack.Delivery.Model.Facet.{FacetView, facet}
use boatstack.Delivery.Model.Observation.{Snapshot}
use boatstack.Delivery.Catalog.Transition.{FacetCondition}
use boatstack.Delivery.Catalog.Evaluation.{evaluate, evaluate_view, matches}

-- The facet has one of the statuses and, if values are listed, one of them.
abbrev pub Holds : FacetCondition → Snapshot → Type 0
Holds c s =
    (status : FactStatus) × (value : String) × (facet s c.facet ≡ some (status, value))
    × In status c.statuses
    × ((c.values ≡ []) ⊎ In value c.values)

nil_of_empty : (xs : List String) → is_empty xs ≡ true → xs ≡ []
nil_of_empty [] h = refl
nil_of_empty (x ∷ xs) h = cc

values_iff :
    (xs : List String) (v : String)
    → ((is_empty xs || contains xs v) ≡ true) ↔ ((xs ≡ []) ⊎ In v xs)
values_iff xs v = (
  λ h. elim (Bool-cases (is_empty xs)) [
    | inl e ↦ inl (nil_of_empty xs e)
    | inr e ↦ inr (contains→In xs v (ground arith))
  ],
  λ h. elim h [ inl e ↦ rw e refl | inr m ↦ ground (arith, In→contains xs v m) ],
)

view_true :
    (c : FacetCondition) (status : FactStatus) (value : String)
    → (evaluate_view c (some (status, value))).0
      ≡ contains c.statuses status && (is_empty c.values || contains c.values value)
view_true c status value = ground arith

unanswered :
    (c : FacetCondition) (o : Option FacetView) → o ≡ none → ¬ ((evaluate_view c o).0 ≡ true)
unanswered c none e h = cc
unanswered c (some view) e h = cc

both : (a b : Bool) → a && b ≡ true → (a ≡ true) × (b ≡ true)
both a b h = (ground arith, ground arith)

-- A condition matches exactly if its facet has one of its statuses and one of its values, if it
-- lists any.
pub matches_iff : (c : FacetCondition) (s : Snapshot) → (matches c s ≡ true) ↔ Holds c s
unfolding matches evaluate
matches_iff c s = (
  λ h. elim (Option-cases (facet s c.facet)) [
    | inl e ↦ absurd (unanswered c (facet s c.facet) e h)
    | inr ((status, value), e) ↦
        let h = sym (view_true c status value) ∙ ap (λ o. (evaluate_view c o).0) (sym e) ∙ h in
        let (status_in, value_in) = both _ _ h in
        (
          status,
          value,
          e,
          contains→In c.statuses status status_in,
          (values_iff c.values value).0 value_in,
        )
  ],
  λ (status, value, e, m, k).
      ap (λ o. (evaluate_view c o).0) e
      ∙ view_true c status value
      ∙ ground (arith, In→contains c.statuses status m, (values_iff c.values value).1 k),
)
