-- ===== src/Kernel/Capability/Normal.antt =====
-- What `normalizeCapabilities` returns.
use boatstack.Base.{
  ◌≡◌, refl, sym, subst, ◌↔◌, ◌⊎◌, inl, inr, Bool, true, false, String, List, [], ◌∷◌, arith, All,
  In, contains, contains→In, In→contains, if◌then◌else◌, Bool-cases,
}
use boatstack.Base.Text.{str_ltb, str_ltb_asym, str_ltb_trans, str_ltb_neg_trans, str_ltb_total}
use boatstack.Base.Sort.{sort, insert, All-insert, IsStrictWeak, In-sort, In-of_sort}
use boatstack.Kernel.Types.{Capability}
use boatstack.Kernel.Identifier.{semantic_id}
use boatstack.Kernel.Error.{ok, ok-injective, >>=-eq-ok}
use boatstack.Kernel.Capability.{collect_capabilities, normalize_capabilities, validate_capability}

pub string_order : IsStrictWeak str_ltb
string_order = record { asym = str_ltb_asym; trans = str_ltb_neg_trans }

-- In strictly ascending order, so without repetition.
abbrev pub IsAscending : List String → Type 0
IsAscending [] = Unit
IsAscending (x ∷ xs) = All (λ y. str_ltb x y ≡ true) xs × IsAscending xs

-- no element twice
abbrev pub IsDistinct : List String → Type 0
IsDistinct [] = Unit
IsDistinct (x ∷ xs) = (contains xs x ≡ false) × IsDistinct xs

collect-IsDistinct :
    (seen values result : List Capability)
    → IsDistinct seen
    → collect_capabilities seen values ≡ ok result
    → IsDistinct result
unfolding collect_capabilities
collect-IsDistinct seen [] result d h = subst IsDistinct (ok-injective seen result h) d
collect-IsDistinct seen (v ∷ vs) result d h =
    let (_, valid, rest) = >>=-eq-ok (validate_capability v) _ h in
    elim (Bool-cases (contains seen v)) [
      | inl e ↦ collect-IsDistinct seen vs result d (rw e at rest)
      | inr e ↦ collect-IsDistinct (v ∷ seen) vs result (e, d) (rw e at rest)
    ]

In-add :
    (seen : List Capability) (v c : Capability)
    → In c (if contains seen v then seen else v ∷ seen) ↔ (In c seen ⊎ (v ≡ c))
In-add seen v c = elim (Bool-cases (contains seen v)) [
  | inl e ↦
      rw e
        (inl, λ m. elim m [ inl k ↦ k | inr is ↦ subst (λ x. In x seen) is (contains→In seen v e) ])
  | inr e ↦ rw e (
    λ m. elim m [ inl is ↦ inr is | inr k ↦ inl k ],
    λ m. elim m [ inl k ↦ inr k | inr is ↦ inl is ],
  )
]

collect-In :
    (seen values result : List Capability)
    → collect_capabilities seen values ≡ ok result
    → (c : Capability) → In c result ↔ (In c seen ⊎ In c values)
unfolding collect_capabilities
collect-In seen [] result h c =
    rw (← ok-injective seen result h) (inl, λ m. elim m [ inl k ↦ k | inr k ↦ absurd k ])
collect-In seen (v ∷ vs) result h c =
    let (_, valid, rest) = >>=-eq-ok (validate_capability v) _ h in
    let (to, from) = collect-In (if contains seen v then seen else v ∷ seen) vs result rest c in
    let (split, join) = In-add seen v c in
    (
      λ m. elim (to m) [
        | inl k ↦ elim (split k) [ inl old ↦ inl old | inr is ↦ inr (inl is) ]
        | inr k ↦ inr (inr k)
      ],
      λ m. elim m [
        | inl old ↦ from (inl (join (inl old)))
        | inr (inl is) ↦ from (inl (join (inr is)))
        | inr (inr k) ↦ from (inr k)
      ],
    )

collect-All_valid :
    (seen values result : List Capability)
    → collect_capabilities seen values ≡ ok result
    → All (λ v. semantic_id v ≡ true) values
unfolding collect_capabilities validate_capability
collect-All_valid seen [] result h = tt
collect-All_valid seen (v ∷ vs) result h =
    let (_, valid, rest) = >>=-eq-ok (validate_capability v) _ h in
    (
      ground (arith, valid),
      collect-All_valid (if contains seen v then seen else v ∷ seen) vs result rest,
    )

pub All-lt_trans :
    (x y : String) (zs : List String)
    → str_ltb x y ≡ true
    → All (λ z. str_ltb y z ≡ true) zs
    → All (λ z. str_ltb x z ≡ true) zs
All-lt_trans x y [] e h = tt
All-lt_trans x y (z ∷ zs) e h = (str_ltb_trans x y z e h.0, All-lt_trans x y zs e h.1)

insert-IsAscending :
    (x : String) (ys : List String) → ¬ In x ys → IsAscending ys → IsAscending (insert str_ltb x ys)
unfolding insert
insert-IsAscending x [] n h = (tt, tt)
insert-IsAscending x (y ∷ ys) n h = elim (Bool-cases (str_ltb y x)) [
  | inl e ↦ rw e (
    All-insert str_ltb (λ z. str_ltb y z ≡ true) x ys e h.0,
    insert-IsAscending x ys (λ m. n (inr m)) h.1,
  )
  | inr e ↦
      let below : str_ltb x y ≡ true = elim (str_ltb_total x y) [
        | inl lt ↦ lt
        | inr (inl is) ↦ absurd (n (inl (sym is)))
        | inr (inr gt) ↦ absurd (ground arith)
      ] in
      rw e ((below, All-lt_trans x y ys below h.0), h)
]

pub sort-IsAscending : (xs : List String) → IsDistinct xs → IsAscending (sort str_ltb xs)
unfolding sort
sort-IsAscending [] d = tt
sort-IsAscending (x ∷ xs) d =
    insert-IsAscending x (sort str_ltb xs)
      (λ m. true_ne_false (In→contains xs x (In-sort str_ltb x xs m)) d.0) (sort-IsAscending xs d.1)
  where
    true_ne_false : {b : Bool} → b ≡ true → b ≡ false → ⊥
    true_ne_false p q = cc

pub record IsNormalOf (values result : List Capability) : Type 0 where
  pub valid : All (λ v. semantic_id v ≡ true) values
  pub ascending : IsAscending result
  pub same : (c : Capability) → In c result ↔ In c values

-- A list that `normalizeCapabilities` accepts is all semantic identifiers, and what it returns has
-- exactly the capabilities of the list, each once, in ascending order.
pub normalize-IsNormalOf :
    (values result : List Capability)
    → normalize_capabilities values ≡ ok result
    → IsNormalOf values result
unfolding normalize_capabilities
normalize-IsNormalOf values result h =
    let (seen, collected, sorted) = >>=-eq-ok (collect_capabilities [] values) _ h in
    let is = ok-injective _ result sorted in
    subst (IsNormalOf values) is (record {
      valid = collect-All_valid [] values seen collected;
      ascending = sort-IsAscending seen (collect-IsDistinct [] values seen tt collected);
      same = λ c.
          let (to, from) = collect-In [] values seen collected c in
          (
            λ m. elim (to (In-sort str_ltb c seen m)) [ inl k ↦ absurd k | inr k ↦ k ],
            λ m. In-of_sort str_ltb c seen (from (inr m)),
          );
    })

-- and it fails only if one of them is not.
collect_total :
    (seen values : List Capability)
    → All (λ v. semantic_id v ≡ true) values
    → (result : List Capability) × (collect_capabilities seen values ≡ ok result)
unfolding collect_capabilities validate_capability
collect_total seen [] h = (seen, refl)
collect_total seen (v ∷ vs) h =
    let (result, e) = collect_total (if contains seen v then seen else v ∷ seen) vs h.1 in
    (result, rw h.0 e)

-- `normalizeCapabilities` returns a result for every list of semantic identifiers.
pub normalize_total :
    (values : List Capability)
    → All (λ v. semantic_id v ≡ true) values
    → (result : List Capability) × (normalize_capabilities values ≡ ok result)
unfolding normalize_capabilities
normalize_total values h = let (seen, e) = collect_total [] values h in (sort str_ltb seen, rw e)
