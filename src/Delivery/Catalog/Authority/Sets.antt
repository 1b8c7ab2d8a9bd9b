-- ===== src/Delivery/Catalog/Authority/Sets.antt =====
-- The sets of capabilities of boatstack/internal/softwaredelivery/catalog/capability.go.
use boatstack.Base.{
  String, Bool, true, not, List, [], ◌∷◌, ◌++◌, In, inl, inr, ◌⊎◌, ◌≡◌, ◌≢◌, All, All-of_In, refl,
  sym, ap, ◌∙◌, subst, Bool-cases, contains, contains→In, if◌then◌else◌, In-append_left,
  In-append_right, In-append_cases,
}
use boatstack.Base.Text.{str_ltb}
use boatstack.Base.Sort.{In-sort, In-of_sort, All-sort}
use boatstack.Kernel.Error.{ok, >>=-eq-ok, refuse_if-then, ok-injective}
use boatstack.Delivery.Model.StateFacets.{add_key, add_valid, concat}
use boatstack.Delivery.Catalog.Capability
use boatstack.Delivery.Catalog.Capability.{Capability}
use boatstack.Delivery.Catalog.Authority.{
  CapabilitySet, collect_capabilities, missing_capability, new_capability_set,
  normalize_capabilities, union_capabilities,
}

add_key-new : (v : String) (set : List String) → In v (add_key v set)
add_key-new v set = elim (Bool-cases (contains set v)) [
  | inl e ↦ rw e (contains→In set v e)
  | inr e ↦ rw e (inl refl)
]

add_key-old : (v x : String) (set : List String) → In x set → In x (add_key v set)
add_key-old v x set m = elim (Bool-cases (contains set v)) [ inl e ↦ rw e m | inr e ↦ rw e (inr m) ]

add_key-cases : (v x : String) (set : List String) → In x (add_key v set) → (v ≡ x) ⊎ In x set
add_key-cases v x set m = elim (Bool-cases (contains set v)) [
  | inl e ↦ inr (subst (λ b. In x (if b then set else v ∷ set)) e m)
  | inr e ↦ subst (λ b. In x (if b then set else v ∷ set)) e m
]

module _ (valid : String → Bool) where
  pub add_valid-old : (xs set : List String) (x : String) → In x set → In x (add_valid valid xs set)
  add_valid-old [] set x m = m
  add_valid-old (v ∷ xs) set x m = elim (Bool-cases (valid v)) [
    | inl e ↦ rw e (add_valid-old xs (add_key v set) x (add_key-old v x set m))
    | inr e ↦ rw e (add_valid-old xs set x m)
  ]

  pub add_valid-new :
      (xs set : List String) (x : String) → In x xs → valid x ≡ true → In x (add_valid valid xs set)
  add_valid-new [] set x m t = absurd m
  add_valid-new (v ∷ xs) set x (inl e) t =
      let valid_v : valid v ≡ true = ap valid e ∙ t in
      rw valid_v (
        add_valid-old xs (add_key v set) x
          (subst (λ y. In y (add_key v set)) e (add_key-new v set)))
  add_valid-new (v ∷ xs) set x (inr m) t = elim (Bool-cases (valid v)) [
    | inl e ↦ rw e (add_valid-new xs (add_key v set) x m t)
    | inr e ↦ rw e (add_valid-new xs set x m t)
  ]

  pub add_valid-cases :
      (xs set : List String) (x : String)
      → In x (add_valid valid xs set)
      → (In x xs × (valid x ≡ true)) ⊎ In x set
  add_valid-cases [] set x m = inr m
  add_valid-cases (v ∷ xs) set x m = elim (Bool-cases (valid v)) [
    | inl e ↦
        elim (add_valid-cases xs (add_key v set) x
          (subst (λ b. In x (add_valid valid xs (if b then add_key v set else set))) e m)) [
            | inl (k, t) ↦ inl (inr k, t)
            | inr k ↦ elim (add_key-cases v x set k) [
              | inl same ↦ inl (inl same, ap valid (sym same) ∙ e)
              | inr k ↦ inr k
            ]
          ]
    | inr e ↦
        elim (add_valid-cases xs set x
          (subst (λ b. In x (add_valid valid xs (if b then add_key v set else set))) e m)) [
            | inl (k, t) ↦ inl (inr k, t)
            | inr k ↦ inr k
          ]
  ]

-- UnionCapabilities of two groups holds what is valid of either.
pub union-In :
    (xs ys : List Capability) (c : Capability)
    → In c xs ⊎ In c ys
    → Capability.is_valid c ≡ true
    → In c (union_capabilities (xs ∷ ys ∷ []))
unfolding union_capabilities
union-In xs ys c m t =
    let among : In c (xs ++ (ys ++ [])) = elim m [
      | inl k ↦ In-append_left c xs (ys ++ []) k
      | inr k ↦ In-append_right c xs (ys ++ []) (In-append_left c ys [] k)
    ] in
    In-of_sort str_ltb c _ (add_valid-new Capability.is_valid _ [] c among t)

-- Where MissingCapability finds nothing and no capability is empty, each that is required is there.
pub missing-none :
    (required : List Capability) (available : CapabilitySet)
    → missing_capability required available ≡ ""
    → All (λ v. v ≢ "") required
    → All (λ v. In v available) required
unfolding missing_capability
missing-none [] available h full = tt
missing-none (v ∷ required) available h (n, full) = elim (Bool-cases (contains available v)) [
  | inl e ↦ (
    contains→In available v e,
    missing-none required available
        (subst (λ b. (if not b then v else missing_capability required available) ≡ "") e h) full,
  )
  | inr e ↦
      absurd
        (n (subst (λ b. (if not b then v else missing_capability required available) ≡ "") e h))
]

valid_full : (c : Capability) → Capability.is_valid c ≡ true → c ≢ ""
unfolding contains
valid_full c h e = cc

-- The union has valid capabilities only.
pub union-full : (groups : List (List Capability)) → All (λ v. v ≢ "") (union_capabilities groups)
unfolding union_capabilities
union-full groups =
    All-sort str_ltb (λ v. v ≢ "") _
      (All-of_In (λ v. v ≢ "") _
        (λ c m. elim (add_valid-cases Capability.is_valid (concat groups) [] c m) [
          | inl (_, t) ↦ valid_full c t
          | inr k ↦ absurd k
        ]))

collect-In :
    (field : String) (seen values : List Capability) {all : CapabilitySet} (c : Capability)
    → collect_capabilities field seen values ≡ ok all
    → In c all
    → In c values ⊎ In c seen
unfolding collect_capabilities
collect-In field seen [] c h m = inr (subst (In c) (sym (ok-injective _ _ h)) m)
collect-In field seen (v ∷ values) c h m =
    let (_, h) = refuse_if-then (not (Capability.is_valid v)) _ _ h in
    let (_, h) = refuse_if-then (contains seen v) _ _ h in
    elim (collect-In field (v ∷ seen) values c h m) [
      | inl k ↦ inl (inr k)
      | inr (inl e) ↦ inl (inl e)
      | inr (inr k) ↦ inr k
    ]

-- NormalizeCapabilities adds nothing.
pub normalize-In :
    (field : String) (values : List Capability) {normal : List Capability} (c : Capability)
    → normalize_capabilities field values ≡ ok normal
    → In c normal
    → In c values
unfolding normalize_capabilities
normalize-In field values c h m =
    let (seen, collected, h) = >>=-eq-ok (collect_capabilities field [] values) _ h in
    elim (collect-In field [] values c collected
      (In-sort str_ltb c seen (subst (In c) (sym (ok-injective _ _ h)) m))) [
        | inl k ↦ k
        | inr k ↦ absurd k
      ]

-- A set that NewCapabilitySet makes of values has no others.
pub new_set-In :
    (values : List Capability) (c : Capability) → In c (new_capability_set values) → In c values
new_set-In values c m = elim (add_valid-cases Capability.is_valid values [] c m) [
  | inl (k, _) ↦ k
  | inr k ↦ absurd k
]

collect-kept :
    (field : String) (seen values : List Capability) {all : CapabilitySet} (c : Capability)
    → collect_capabilities field seen values ≡ ok all
    → In c values ⊎ In c seen
    → In c all
unfolding collect_capabilities
collect-kept field seen [] c h (inl m) = absurd m
collect-kept field seen [] c h (inr m) = subst (In c) (ok-injective _ _ h) m
collect-kept field seen (v ∷ values) c h m =
    let (_, h) = refuse_if-then (not (Capability.is_valid v)) _ _ h in
    let (_, h) = refuse_if-then (contains seen v) _ _ h in
    collect-kept field (v ∷ seen) values c h
      (elim m [ inl (inl e) ↦ inr (inl e) | inl (inr k) ↦ inl k | inr k ↦ inr (inr k) ])

-- NormalizeCapabilities leaves nothing out.
pub In-normalize :
    (field : String) (values : List Capability) {normal : List Capability} (c : Capability)
    → normalize_capabilities field values ≡ ok normal
    → In c values
    → In c normal
unfolding normalize_capabilities
In-normalize field values c h m =
    let (seen, collected, h) = >>=-eq-ok (collect_capabilities field [] values) _ h in
    subst (In c) (ok-injective _ _ h)
      (In-of_sort str_ltb c seen (collect-kept field [] values c collected (inl m)))

-- What the union of two groups holds is valid, and of one of them.
pub union-cases :
    (xs ys : List Capability) (c : Capability)
    → In c (union_capabilities (xs ∷ ys ∷ []))
    → (In c xs ⊎ In c ys) × (Capability.is_valid c ≡ true)
unfolding union_capabilities
union-cases xs ys c m =
    elim (add_valid-cases Capability.is_valid (xs ++ (ys ++ [])) [] c (In-sort str_ltb c _ m)) [
      | inr k ↦ absurd k
      | inl (k, t) ↦ elim (In-append_cases c xs (ys ++ []) k) [
        | inl k ↦ (inl k, t)
        | inr k ↦ elim (In-append_cases c ys [] k) [ inl k ↦ (inr k, t) | inr k ↦ absurd k ]
      ]
    ]
