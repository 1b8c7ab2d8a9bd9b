-- ===== src/Base/Lists.antt =====
-- Membership and quantification over a list by recursion, which the tactics read, and the loops
-- that search, filter or collect.
use boatstack.Base.Names.{
  ℕ, suc, ◌≡◌, refl, ap, subst, ◌∙◌, ◌⊎◌, inl, inr, Bool, true, false, ◌&&◌, ◌||◌, String, ◌==◌,
  eq_iff, List, [], ◌∷◌, ◌++◌, arith,
}
use boatstack.Base.Tests.{if◌then◌else◌, Bool-cases}

abbrev pub length {ℓ} : {A : Type ℓ} → List A → ℕ
length [] = 0
length (x ∷ xs) = suc (length xs)

abbrev pub All {ℓ κ} : {A : Type ℓ} → (A → Type κ) → List A → Type κ
All P [] = Unit
All P (x ∷ xs) = P x × All P xs

-- `len(x) == 0`
abbrev pub is_empty {ℓ} : {A : Type ℓ} → List A → Bool
is_empty [] = true
is_empty (_ ∷ _) = false

-- The elements that pass the test, in order.
abbrev pub keep {ℓ} : {A : Type ℓ} → (A → Bool) → List A → List A
keep p [] = []
keep p (x ∷ xs) = let rest = keep p xs in if p x then x ∷ rest else rest

abbrev pub all_of {ℓ} : {A : Type ℓ} → (A → Bool) → List A → Bool
all_of p [] = true
all_of p (x ∷ xs) = p x && all_of p xs

abbrev pub any_of {ℓ} : {A : Type ℓ} → (A → Bool) → List A → Bool
any_of p [] = false
any_of p (x ∷ xs) = p x || any_of p xs

module _ {A : Type 0} where
  -- `a` is an element of the list.
  abbrev pub In : A → List A → Type 0
  In a [] = ⊥
  In a (x ∷ xs) = (x ≡ a) ⊎ In a xs

  pub In-append_left : (a : A) (xs ys : List A) → In a xs → In a (xs ++ ys)
  In-append_left a [] ys h = absurd h
  In-append_left a (x ∷ xs) ys (inl e) = inl e
  In-append_left a (x ∷ xs) ys (inr h) = inr (In-append_left a xs ys h)

  pub In-append_right : (a : A) (xs ys : List A) → In a ys → In a (xs ++ ys)
  In-append_right a [] ys h = h
  In-append_right a (x ∷ xs) ys h = inr (In-append_right a xs ys h)

  pub In-append_cases : (a : A) (xs ys : List A) → In a (xs ++ ys) → In a xs ⊎ In a ys
  In-append_cases a [] ys h = inr h
  In-append_cases a (x ∷ xs) ys (inl e) = inl (inl e)
  In-append_cases a (x ∷ xs) ys (inr h) = elim (In-append_cases a xs ys h) [
    | inl k ↦ inl (inr k)
    | inr k ↦ inr k
  ]

  pub All-In {κ} : (P : A → Type κ) (xs : List A) {a : A} → All P xs → In a xs → P a
  All-In P [] h m = absurd m
  All-In P (x ∷ xs) h (inl e) = subst P e h.0
  All-In P (x ∷ xs) h (inr m) = All-In P xs h.1 m

  pub All-of_In {κ} : (P : A → Type κ) (xs : List A) → ((a : A) → In a xs → P a) → All P xs
  All-of_In P [] h = tt
  All-of_In P (x ∷ xs) h = (h x (inl refl), All-of_In P xs (λ a m. h a (inr m)))

  pub keep_sound : (p : A → Bool) (xs : List A) (a : A) → In a (keep p xs) → In a xs × (p a ≡ true)
  keep_sound p [] a m = absurd m
  keep_sound p (x ∷ xs) a m = ground (arith, keep_sound p xs a)

  pub keep_complete : (p : A → Bool) (xs : List A) (a : A) → In a xs → p a ≡ true → In a (keep p xs)
  keep_complete p [] a m t = absurd m
  keep_complete p (x ∷ xs) a (inl e) t = rw (ap p e ∙ t) (inl e)
  keep_complete p (x ∷ xs) a (inr m) t = elim (Bool-cases (p x)) [
    | inl e ↦ rw e (inr (keep_complete p xs a m t))
    | inr e ↦ rw e (keep_complete p xs a m t)
  ]

  pub All-keep {κ} : (p : A → Bool) (P : A → Type κ) (xs : List A) → All P xs → All P (keep p xs)
  All-keep p P [] h = tt
  All-keep p P (x ∷ xs) h = elim (Bool-cases (p x)) [
    | inl e ↦ rw e (h.0, All-keep p P xs h.1)
    | inr e ↦ rw e (All-keep p P xs h.1)
  ]

  -- Two tests that agree on the elements keep the same ones.
  pub keep_ext : (p q : A → Bool) (xs : List A) → All (λ x. p x ≡ q x) xs → keep p xs ≡ keep q xs
  keep_ext p q [] h = refl
  keep_ext p q (x ∷ xs) h = ground (arith, h.0, keep_ext p q xs h.1)

-- `contains` of kernel/runtime.go, and the membership test of a `map[string]bool`.
unfoldable pub contains : List String → String → Bool
contains [] wanted = false
contains (value ∷ values) wanted = value == wanted || contains values wanted

pub contains→In :
    (values : List String) (wanted : String) → contains values wanted ≡ true → In wanted values
unfolding contains
contains→In [] wanted h = cc
contains→In (value ∷ values) wanted h =
    ground (arith, eq_iff value wanted, contains→In values wanted)

pub In→contains :
    (values : List String) (wanted : String) → In wanted values → contains values wanted ≡ true
unfolding contains
In→contains [] wanted m = absurd m
In→contains (value ∷ values) wanted (inl e) = ground (arith, eq_iff value wanted)
In→contains (value ∷ values) wanted (inr m) = ground (arith, In→contains values wanted m)
