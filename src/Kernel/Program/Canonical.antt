-- ===== src/Kernel/Program/Canonical.antt =====
-- The canonical form of lists and transitions is its own canonical form.
use boatstack.Base.{
  String, none, true, false, List, [], ◌∷◌, ◌≡◌, ◌↔◌, inl, inr, refl, sym, ap, ap₂, ◌∙◌, subst,
  arith, All, All-In, All-of_In, In,
}
use boatstack.Base.Int.{ℤ}
use boatstack.Base.Text.{str_ltb, str_ltb_asym, str_ltb_trans}
use boatstack.Base.Sort.{sort, sort_sorted, sort-IsSorted, All-sort, IsStrictWeak}
use boatstack.Kernel.Types.{Transition, Capability}
use boatstack.Kernel.Identifier.{semantic_id, qualified_semantic_id}
use boatstack.Kernel.Error.{Result, ok, err, >>=-eq-ok, check-then, ok-injective}
use boatstack.Kernel.Capability.{normalize_capabilities}
use boatstack.Kernel.Capability.Normal.{
  string_order, IsAscending, normalize-IsNormalOf, normalize_total,
}
use boatstack.Kernel.Relation.{RelationCandidate}
use boatstack.Kernel.Relation.Order.{candidate_order}
use boatstack.Kernel.Program.{
  canonical_ids, canonical_qualified_ids, canonical_transition, canonical_transitions, check_sorted,
  within_transition, transition_before, not_semantic, not_qualified,
}

pub canonical_ids-twice :
    (values result : List String) (label : String)
    → canonical_ids values label ≡ ok result
    → canonical_ids result label ≡ ok result
unfolding canonical_ids
canonical_ids-twice values result label h =
    let (checked, same) =
      check-then (check_sorted semantic_id (not_semantic label) label none (sort str_ltb values)) _
        h in
    let is = ok-injective (sort str_ltb values) result same in
    subst (λ l. canonical_ids l label ≡ ok l) is
      (rw (sort_sorted str_ltb (sort str_ltb values) (sort-IsSorted string_order values), checked)
        refl)

canonical_qualified_ids-twice :
    (values result : List String) (label : String)
    → canonical_qualified_ids values label ≡ ok result
    → canonical_qualified_ids result label ≡ ok result
unfolding canonical_qualified_ids
canonical_qualified_ids-twice values result label h =
    let (checked, same) =
      check-then
        (check_sorted qualified_semantic_id (not_qualified label) label none (sort str_ltb values))
        _ h in
    let is = ok-injective (sort str_ltb values) result same in
    subst (λ l. canonical_qualified_ids l label ≡ ok l) is
      (rw (sort_sorted str_ltb (sort str_ltb values) (sort-IsSorted string_order values), checked)
        refl)

-- Nothing is less than itself.
not_less : (x : String) → str_ltb x x ≡ true → ⊥
not_less x h = ground (arith, str_ltb_asym x x h)

All-mem :
    (x y : String) (ys : List String)
    → All (λ z. str_ltb x z ≡ true) ys
    → In y ys
    → str_ltb x y ≡ true
All-mem x y [] h m = absurd m
All-mem x y (z ∷ zs) h (inl e) = subst (λ w. str_ltb x w ≡ true) e h.0
All-mem x y (z ∷ zs) h (inr m) = All-mem x y zs h.1 m

-- Ascending lists with the same elements are the same.
ascending_unique :
    (xs ys : List String)
    → IsAscending xs
    → IsAscending ys
    → ((c : String) → In c xs ↔ In c ys)
    → xs ≡ ys
ascending_unique [] [] a b same = refl
ascending_unique [] (y ∷ ys) a b same = absurd ((same y).1 (inl refl))
ascending_unique (x ∷ xs) [] a b same = absurd ((same x).0 (inl refl))
ascending_unique (x ∷ xs) (y ∷ ys) a b same =
    let head : x ≡ y = elim ((same x).0 (inl refl)) [
      | inl e ↦ sym e
      | inr m ↦ elim ((same y).1 (inl refl)) [
        | inl e ↦ e
        | inr n ↦
            absurd (not_less x (str_ltb_trans x y x (All-mem x y xs a.0 n) (All-mem y x ys b.0 m)))
      ]
    ] in
    ap₂ (λ z zs. z ∷ zs) head
      (ascending_unique xs ys a.1 b.1 (λ c. (
        λ m. elim ((same c).0 (inr m)) [
          | inl e ↦ absurd (
              not_less x
                (subst (λ z. str_ltb x z ≡ true) (sym e ∙ sym head) (All-mem x c xs a.0 m)))
          | inr n ↦ n
        ],
        λ n. elim ((same c).1 (inr n)) [
          | inl e ↦
              absurd
                (not_less y (subst (λ z. str_ltb y z ≡ true) (sym e ∙ head) (All-mem y c ys b.0 n)))
          | inr m ↦ m
        ],
      )))

normalize-twice :
    (values result : List Capability)
    → normalize_capabilities values ≡ ok result
    → normalize_capabilities result ≡ ok result
normalize-twice values result h =
    let normal = normalize-IsNormalOf values result h in
    let valid =
      All-of_In (λ c. semantic_id c ≡ true) result
        (λ c m. All-In (λ c. semantic_id c ≡ true) values normal.valid ((normal.same c).0 m)) in
    let (again, e) = normalize_total result valid in
    let twice = normalize-IsNormalOf result again e in
    e ∙ ap (λ l. ok l) (ascending_unique again result twice.ascending normal.ascending twice.same)

within-eq-ok :
    {A : Type 0} (id : String) (r : Result A) (a : A) → within_transition id r ≡ ok a → r ≡ ok a
within-eq-ok id (ok b) a h = h
within-eq-ok id (err e) a h = cc

canonical_transition-twice :
    (t c : Transition) → canonical_transition t ≡ ok c → canonical_transition c ≡ ok c
unfolding canonical_transition
canonical_transition-twice t c h =
    let (modes, m, h) =
      >>=-eq-ok (within_transition t.id (canonical_ids t.source_modes "source mode")) _ h in
    let (capabilities, k, h) =
      >>=-eq-ok (within_transition t.id (normalize_capabilities t.required_capabilities)) _ h in
    let (facets, f, h) =
      >>=-eq-ok (within_transition t.id (canonical_ids t.owned_facets "owned facet")) _ h in
    let (recovers, r, h) =
      >>=-eq-ok (within_transition t.id (canonical_qualified_ids t.recovers "recovery target")) _
        h in
    subst (λ c. canonical_transition c ≡ ok c) (ok-injective _ c h)
      (rw
        (
          canonical_ids-twice t.source_modes modes "source mode" (within-eq-ok t.id _ modes m),
          normalize-twice t.required_capabilities capabilities (within-eq-ok t.id _ capabilities k),
          canonical_ids-twice t.owned_facets facets "owned facet" (within-eq-ok t.id _ facets f),
          canonical_qualified_ids-twice t.recovers recovers "recovery target"
              (within-eq-ok t.id _ recovers r),
        )
        refl)

-- A transition that is its own canonical form.
abbrev IsFixed : Transition → Type 0
IsFixed t = canonical_transition t ≡ ok t

canonical_transitions-All :
    (ts cs : List Transition) → canonical_transitions ts ≡ ok cs → All IsFixed cs
unfolding canonical_transitions
canonical_transitions-All [] cs h = subst (All IsFixed) (ok-injective [] cs h) tt
canonical_transitions-All (t ∷ ts) cs h =
    let (c, e, h) = >>=-eq-ok (canonical_transition t) _ h in
    let (rest, es, h) = >>=-eq-ok (canonical_transitions ts) _ h in
    subst (All IsFixed) (ok-injective (c ∷ rest) cs h)
      (canonical_transition-twice t c e, canonical_transitions-All ts rest es)

canonical_transitions_fixed :
    (cs : List Transition) → All IsFixed cs → canonical_transitions cs ≡ ok cs
unfolding canonical_transitions
canonical_transitions_fixed [] h = refl
canonical_transitions_fixed (c ∷ cs) h = rw (h.0, canonical_transitions_fixed cs h.1) refl

-- The order of transitions is that of candidates of one rank.
as_candidate : Transition → RelationCandidate
as_candidate t = record {
  id = t.id;
  rank = ℤ.pos 0;
  priority = t.priority;
  selectable = false;
  required_all = [];
  required_any = [];
}

transition_order : IsStrictWeak transition_before
unfolding as_candidate
transition_order = record {
  asym = λ a b. candidate_order.asym (as_candidate a) (as_candidate b);
  trans = λ a b c. candidate_order.trans (as_candidate a) (as_candidate b) (as_candidate c);
}

-- Sorted canonical transitions are canonical, and sorted.
pub sorted_transitions-twice :
    (ts cs : List Transition)
    → canonical_transitions ts ≡ ok cs
    → (canonical_transitions (sort transition_before cs) ≡ ok (sort transition_before cs))
      × (sort transition_before (sort transition_before cs) ≡ sort transition_before cs)
sorted_transitions-twice ts cs h = (
  canonical_transitions_fixed (sort transition_before cs)
      (All-sort transition_before IsFixed cs (canonical_transitions-All ts cs h)),
  sort_sorted transition_before (sort transition_before cs) (sort-IsSorted transition_order cs),
)
