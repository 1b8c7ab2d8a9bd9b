-- ===== src/Base/Sort.antt =====
-- `sort.Slice` and `sort.Strings`: the elements in the order of a `less` function. Where two
-- elements are neither less than the other Go leaves their order open; insertion keeps it.
use boatstack.Base.Names.{
  ◌≡◌, refl, ◌⊎◌, inl, inr, Bool, true, false, List, [], ◌∷◌, arith, subst, ap, ◌∙◌,
}
use boatstack.Base.Tests.{if◌then◌else◌, Bool-cases}
use boatstack.Base.Lists.{is_empty, All, All-keep, In, keep}

module _ {A : Type 0} (less : A → A → Bool) where
  unfoldable pub insert : A → List A → List A
  insert x [] = x ∷ []
  insert x (y ∷ ys) = let rest = insert x ys in if less y x then y ∷ rest else x ∷ y ∷ ys

  unfoldable pub sort : List A → List A
  unfolding insert
  sort [] = []
  sort (x ∷ xs) = insert x (sort xs)

  -- No element is less than one that stands before it.
  abbrev pub IsSorted : List A → Type 0
  IsSorted [] = Unit
  IsSorted (x ∷ xs) = All (λ y. less y x ≡ false) xs × IsSorted xs

-- What `sort.Slice` asks of `less`.
pub record IsStrictWeak {A : Type 0} (less : A → A → Bool) : Type 0 where
  pub asym : (a b : A) → less a b ≡ true → less b a ≡ false
  pub trans : (a b c : A) → less b a ≡ false → less c b ≡ false → less c a ≡ false

module _ {A : Type 0} (less : A → A → Bool) where
  In-insert : (x a : A) (ys : List A) → In a (insert less x ys) → (x ≡ a) ⊎ In a ys
  unfolding insert
  In-insert x a [] m = m
  In-insert x a (y ∷ ys) m = ground (arith, In-insert x a ys)

  In-of_insert : (x a : A) (ys : List A) → (x ≡ a) ⊎ In a ys → In a (insert less x ys)
  unfolding insert
  In-of_insert x a [] m = m
  In-of_insert x a (y ∷ ys) m = ground (arith, In-of_insert x a ys)

  -- Sorting keeps the elements.
  pub In-sort : (a : A) (xs : List A) → In a (sort less xs) → In a xs
  unfolding sort
  In-sort a [] m = m
  In-sort a (x ∷ xs) m = ground (arith, In-insert x a (sort less xs), In-sort a xs)

  pub In-of_sort : (a : A) (xs : List A) → In a xs → In a (sort less xs)
  unfolding sort
  In-of_sort a [] m = m
  In-of_sort a (x ∷ xs) m = ground (arith, In-of_insert x a (sort less xs), In-of_sort a xs)

  pub sort-nil : (xs : List A) → sort less xs ≡ [] → xs ≡ []
  unfolding sort
  sort-nil [] e = refl
  sort-nil (x ∷ xs) e = absurd (subst (In x) e (In-of_sort x (x ∷ xs) (inl refl)))

  pub All-insert {κ} :
      (P : A → Type κ) (x : A) (ys : List A) → P x → All P ys → All P (insert less x ys)
  unfolding insert
  All-insert P x [] px ps = (px, tt)
  All-insert P x (y ∷ ys) px ps = elim (Bool-cases (less y x)) [
    | inl e ↦ rw e (ps.0, All-insert P x ys px ps.1)
    | inr e ↦ rw e (px, ps)
  ]

  -- What holds of all elements holds of all after sorting.
  pub All-sort {κ} : (P : A → Type κ) (xs : List A) → All P xs → All P (sort less xs)
  unfolding sort
  All-sort P [] h = tt
  All-sort P (x ∷ xs) h = All-insert P x (sort less xs) h.0 (All-sort P xs h.1)

module _ {A : Type 0} {less : A → A → Bool} (order : IsStrictWeak less) where
  All-not_less_trans :
      (x y : A) (zs : List A)
      → less y x ≡ false
      → All (λ z. less z y ≡ false) zs
      → All (λ z. less z x ≡ false) zs
  All-not_less_trans x y [] e h = tt
  All-not_less_trans x y (z ∷ zs) e h = (order.trans x y z e h.0, All-not_less_trans x y zs e h.1)

  insert-IsSorted : (x : A) (ys : List A) → IsSorted less ys → IsSorted less (insert less x ys)
  unfolding insert
  insert-IsSorted x [] h = (tt, tt)
  insert-IsSorted x (y ∷ ys) h = elim (Bool-cases (less y x)) [
    | inl e ↦ rw e (
      All-insert less (λ z. less z y ≡ false) x ys (order.asym y x e) h.0,
      insert-IsSorted x ys h.1,
    )
    | inr e ↦ rw e ((e, All-not_less_trans x y ys e h.0), h)
  ]

  -- The result is in order.
  pub sort-IsSorted : (xs : List A) → IsSorted less (sort less xs)
  unfolding sort
  sort-IsSorted [] = tt
  sort-IsSorted (x ∷ xs) = insert-IsSorted x (sort less xs) (sort-IsSorted xs)

-- What is in order already stays as it is.
module _ {A : Type 0} (less : A → A → Bool) where
  insert_front : (x : A) (ys : List A) → All (λ y. less y x ≡ false) ys → insert less x ys ≡ x ∷ ys
  unfolding insert
  insert_front x [] h = refl
  insert_front x (y ∷ ys) h = rw h.0

  pub sort_sorted : (xs : List A) → IsSorted less xs → sort less xs ≡ xs
  unfolding sort
  sort_sorted [] h = refl
  sort_sorted (x ∷ xs) h = rw (sort_sorted xs h.1) (insert_front x xs h.0)

module _ {A : Type 0} {less : A → A → Bool} (order : IsStrictWeak less) where
  keep-insert :
      (p : A → Bool) (x : A) (ys : List A)
      → IsSorted less ys
      → keep p (insert less x ys) ≡ (if p x then insert less x (keep p ys) else keep p ys)
  unfolding insert
  keep-insert p x [] h = ground arith
  keep-insert p x (y ∷ ys) h = elim (Bool-cases (less y x)) [
    | inl e ↦ ground (arith, keep-insert p x ys h.1)
    | inr e ↦ ground (
      arith,
      insert_front less x (keep p ys) (All-keep p _ ys (All-not_less_trans order x y ys e h.0)),
    )
  ]

  -- Filtering and sorting commute.
  pub keep-sort : (p : A → Bool) (xs : List A) → keep p (sort less xs) ≡ sort less (keep p xs)
  unfolding sort
  keep-sort p [] = refl
  keep-sort p (x ∷ xs) =
      keep-insert p x (sort less xs) (sort-IsSorted order xs) ∙ rw (keep-sort p xs) (ground arith)

-- A sorted list of one element was a list of that element.
module _ {A : Type 0} (less : A → A → Bool) where
  insert-ne-nil : (x : A) (ys : List A) → ¬ (insert less x ys ≡ [])
  unfolding insert
  insert-ne-nil x [] e = cc
  insert-ne-nil x (y ∷ ys) e = ground arith

  insert-one : (x a : A) (ys : List A) → insert less x ys ≡ a ∷ [] → (x ≡ a) × (ys ≡ [])
  unfolding insert
  insert-one x a [] e = ground arith
  insert-one x a (y ∷ ys) e = ground (arith, insert-ne-nil x ys)

  pub sort-one : (a : A) (xs : List A) → sort less xs ≡ a ∷ [] → xs ≡ a ∷ []
  unfolding sort
  sort-one a [] e = cc
  sort-one a (x ∷ xs) e =
      let (first, rest) = insert-one x a (sort less xs) e in
      ap (λ (l : List A). x ∷ l) (sort-nil less xs rest) ∙ ap (λ (y : A). y ∷ []) first

module _ {A : Type 0} (less : A → A → Bool) where
  is_empty-insert : (x : A) (ys : List A) → is_empty (insert less x ys) ≡ false
  unfolding insert
  is_empty-insert x [] = refl
  is_empty-insert x (y ∷ ys) = ground arith

  pub is_empty-sort : (xs : List A) → is_empty (sort less xs) ≡ is_empty xs
  unfolding sort
  is_empty-sort [] = refl
  is_empty-sort (x ∷ xs) = is_empty-insert x (sort less xs)
