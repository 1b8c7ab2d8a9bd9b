-- ===== src/Delivery/Model/StateFacets/Normal.antt =====
-- What NormalizeStateFacets and UnionStateFacets return.
use boatstack.Base.{
  ◌≡◌, refl, sym, subst, ◌↔◌, ◌⊎◌, inl, inr, Bool, true, false, not, String, ◌==◌, eq_iff, Option,
  none, some, List, [], ◌∷◌, arith, All, All-of_In, In, contains, contains→In, if◌then◌else◌,
  Bool-cases,
}
use boatstack.Base.Text.{str_ltb, str_ltb-unlike, str_ltb_asym, str_ltb_total}
use boatstack.Base.Sort.{sort, IsSorted, In-sort, In-of_sort, sort-IsSorted, sort_sorted, All-sort}
use boatstack.Kernel.Error.{ok, ok-injective, refuse_if-then, check-then}
use boatstack.Kernel.Capability.Normal.{
  IsAscending, IsDistinct, string_order, All-lt_trans, sort-IsAscending,
}
use boatstack.Delivery.Model.StateFacet
use boatstack.Delivery.Model.StateFacet.{StateFacet}
use boatstack.Delivery.Model.StateFacets.{
  repeats, check_state_facets, normalize_state_facets, add_key, add_valid, concat,
  union_state_facets,
}

-- The next facet is in order and is not the same, so it is above, and with it all the others.
below_all :
    (name : String) (x : StateFacet) (ys : List StateFacet)
    → IsSorted str_ltb (x ∷ ys)
    → IsAscending ys
    → check_state_facets name (some x) ys ≡ ok tt
    → All (λ y. str_ltb x y ≡ true) ys
unfolding check_state_facets
below_all name x [] sorted ascending h = tt
below_all name x (y ∷ ys) sorted ascending h =
    let (_, h) = refuse_if-then (not (StateFacet.is_valid y)) _ _ h in
    let (other, _) = refuse_if-then (x == y) _ _ h in
    let below : str_ltb x y ≡ true = elim (str_ltb_total x y) [
      | inl lt ↦ lt
      | inr (inl same) ↦ absurd (ground (arith, eq_iff x y))
      | inr (inr gt) ↦ absurd (ground (arith, sorted.0.0))
    ] in
    (below, All-lt_trans x y ys below ascending.0)

accepted :
    (name : String) (previous : Option StateFacet) (xs : List StateFacet)
    → IsSorted str_ltb xs
    → check_state_facets name previous xs ≡ ok tt
    → All (λ x. StateFacet.is_valid x ≡ true) xs × IsAscending xs
unfolding check_state_facets
accepted name previous [] sorted h = (tt, tt)
accepted name previous (x ∷ xs) sorted h =
    let (valid, h) = refuse_if-then (not (StateFacet.is_valid x)) _ _ h in
    let (_, h) = refuse_if-then (repeats previous x) _ _ h in
    let (valids, ascending) = accepted name (some x) xs sorted.1 h in
    ((ground arith, valids), (below_all name x xs sorted ascending h, ascending))

above_sorted :
    (x : String) (ys : List String)
    → All (λ y. str_ltb x y ≡ true) ys
    → All (λ y. str_ltb y x ≡ false) ys
above_sorted x [] h = tt
above_sorted x (y ∷ ys) h = (str_ltb_asym x y h.0, above_sorted x ys h.1)

ascending-IsSorted : (xs : List String) → IsAscending xs → IsSorted str_ltb xs
ascending-IsSorted [] h = tt
ascending-IsSorted (x ∷ xs) h = (above_sorted x xs h.0, ascending-IsSorted xs h.1)

accepts_next :
    (name : String) (x : StateFacet) (ys : List StateFacet)
    → All (λ y. str_ltb x y ≡ true) ys
    → All (λ y. StateFacet.is_valid y ≡ true) ys
    → IsAscending ys
    → check_state_facets name (some x) ys ≡ ok tt
unfolding check_state_facets
accepts_next name x [] above valid h = refl
accepts_next name x (y ∷ ys) above valid h =
    rw valid.0 (rw (str_ltb-unlike x y above.0) (accepts_next name y ys h.0 valid.1 h.1))

normalize_ascending :
    (name : String) (xs : List StateFacet)
    → All (λ y. StateFacet.is_valid y ≡ true) xs
    → IsAscending xs
    → normalize_state_facets name xs ≡ ok xs
unfolding normalize_state_facets check_state_facets sort
normalize_ascending name [] valid h = refl
normalize_ascending name (x ∷ xs) valid h =
    rw (sort_sorted str_ltb (x ∷ xs) (ascending-IsSorted (x ∷ xs) h))
      (rw valid.0 (rw (accepts_next name x xs h.0 valid.1 h.1) refl))

-- The facets are valid, and the result has the same ones, each once, in ascending order.
pub record IsSetOf (facets result : List StateFacet) : Type 0 where
  pub is_valid : All (λ x. StateFacet.is_valid x ≡ true) result
  pub is_ascending : IsAscending result
  pub same : (x : StateFacet) → In x result ↔ In x facets

-- What NormalizeStateFacets returns of a list is the set of its facets, which are all valid, in
-- ascending order without repetition; and it returns that result again of the result itself.
pub normalize_state_facets-IsSetOf :
    (name : String) (facets result : List StateFacet)
    → normalize_state_facets name facets ≡ ok result
    → IsSetOf facets result × (normalize_state_facets name result ≡ ok result)
unfolding normalize_state_facets
normalize_state_facets-IsSetOf name facets result h =
    let (checked, is) = check-then (check_state_facets name none (sort str_ltb facets)) _ h in
    let same = ok-injective (sort str_ltb facets) result is in
    let (valid, ascending) =
      accepted name none (sort str_ltb facets) (sort-IsSorted string_order facets) checked in
    subst (λ r. IsSetOf facets r × (normalize_state_facets name r ≡ ok r)) same
      (
        record {
          is_valid = valid;
          is_ascending = ascending;
          same = λ x. (In-sort str_ltb x facets, In-of_sort str_ltb x facets);
        },
        normalize_ascending name (sort str_ltb facets) valid ascending,
      )

add_valid-IsDistinct :
    (test : String → Bool) (values set : List String)
    → IsDistinct set
    → IsDistinct (add_valid test values set)
add_valid-IsDistinct test [] set d = d
add_valid-IsDistinct test (v ∷ vs) set d =
    add_valid-IsDistinct test vs (if test v then add_key v set else set)
      (elim (Bool-cases (contains set v)) [ inl e ↦ ground arith | inr e ↦ ground arith ])

add_key-In :
    (v : String) (set : List String) (x : String) → In x (add_key v set) ↔ (In x set ⊎ (v ≡ x))
add_key-In v set x = elim (Bool-cases (contains set v)) [
  | inl e ↦
      rw e
        (inl, λ m. elim m [ inl k ↦ k | inr is ↦ subst (λ y. In y set) is (contains→In set v e) ])
  | inr e ↦ rw e (
    λ m. elim m [ inl is ↦ inr is | inr k ↦ inl k ],
    λ m. elim m [ inl k ↦ inr k | inr is ↦ inl is ],
  )
]

add_if-In :
    (test : String → Bool) (v : String) (set : List String) (x : String)
    → In x (if test v then add_key v set else set) ↔ (In x set ⊎ ((v ≡ x) × (test x ≡ true)))
add_if-In test v set x = elim (Bool-cases (test v)) [
  | inl e ↦
      let (to, from) = add_key-In v set x in
      rw e (
        λ m. elim (to m) [ inl k ↦ inl k | inr is ↦ inr (is, subst (λ y. test y ≡ true) is e) ],
        λ m. elim m [ inl k ↦ from (inl k) | inr k ↦ from (inr k.0) ],
      )
  | inr e ↦ rw e (
    inl,
    λ m. elim m [
      | inl k ↦ k
      | inr k ↦
          let passes = subst (λ y. test y ≡ true) (sym k.0) k.1 in
          absurd (ground (arith, e, passes))
    ],
  )
]

add_valid-In :
    (test : String → Bool) (values set : List String) (x : String)
    → In x (add_valid test values set) ↔ (In x set ⊎ (In x values × (test x ≡ true)))
add_valid-In test [] set x = (inl, λ m. elim m [ inl k ↦ k | inr k ↦ absurd k.0 ])
add_valid-In test (v ∷ vs) set x =
    let (to, from) = add_valid-In test vs (if test v then add_key v set else set) x in
    let (split, join) = add_if-In test v set x in
    (
      λ m. elim (to m) [
        | inl k ↦ elim (split k) [ inl old ↦ inl old | inr is ↦ inr (inl is.0, is.1) ]
        | inr k ↦ inr (inr k.0, k.1)
      ],
      λ m. elim m [
        | inl old ↦ from (inl (join (inl old)))
        | inr (inl is, passes) ↦ from (inl (join (inr (is, passes))))
        | inr (inr k, passes) ↦ from (inr (k, passes))
      ],
    )

-- The union of groups of facets has exactly their valid facets, and NormalizeStateFacets accepts it
-- and returns it unchanged.
pub union_state_facets-normalize :
    (name : String) (groups : List (List StateFacet))
    → (normalize_state_facets name (union_state_facets groups) ≡ ok (union_state_facets groups))
      × ((x : StateFacet)
          → In x (union_state_facets groups)
            ↔ (In x (concat groups) × (StateFacet.is_valid x ≡ true)))
unfolding union_state_facets
union_state_facets-normalize name groups =
    let set : List String = add_valid StateFacet.is_valid (concat groups) [] in
    let members = add_valid-In StateFacet.is_valid (concat groups) [] in
    let only : (x : StateFacet) → In x set → In x (concat groups) × (StateFacet.is_valid x ≡ true) =
      λ x m. elim ((members x).0 m) [ inl k ↦ absurd k | inr k ↦ k ] in
    (
      normalize_ascending name (sort str_ltb set)
          (All-sort str_ltb (λ x. StateFacet.is_valid x ≡ true) set
            (All-of_In (λ x. StateFacet.is_valid x ≡ true) set (λ x m. (only x m).1)))
          (sort-IsAscending set (add_valid-IsDistinct StateFacet.is_valid (concat groups) [] tt)),
      λ x. (
        λ m. only x (In-sort str_ltb x set m),
        λ k. In-of_sort str_ltb x set ((members x).1 (inr k)),
      ),
    )
