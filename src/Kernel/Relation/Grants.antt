-- ===== src/Kernel/Relation/Grants.antt =====
-- What it takes that no authority is missing, and that both computations of it agree.
use boatstack.Base.{
  ◌≡◌, refl, ◌↔◌, ◌⊎◌, inl, inr, true, ◌&&◌, ◌||◌, List, [], ◌∷◌, ◌++◌, arith, All, In, contains,
  contains→In, In→contains, any_of, is_empty, Bool-cases, ap, ap₂,
}
use boatstack.Base.Text.{str_ltb}
use boatstack.Base.Sort.{sort, sort-nil}
use boatstack.Kernel.Types.{Capability}
use boatstack.Kernel.Relation.{
  RelationCandidate, unavailable, missing_any_of, missing_authority, authority_trace,
}

-- The available capabilities grant what a candidate requires: all of the one list, and one of the
-- other unless that is empty.
abbrev pub Granted : RelationCandidate → List Capability → Type 0
Granted c available =
    All (λ v. In v available) c.required_all
    × ((c.required_any ≡ []) ⊎ ((v : Capability) × In v c.required_any × In v available))

unavailable-nil :
    (available values : List Capability)
    → unavailable available values ≡ []
    → All (λ v. In v available) values
unavailable-nil available [] e = tt
unavailable-nil available (v ∷ vs) e =
    ground (arith, contains→In available v, unavailable-nil available vs)

nil_of_available :
    (available values : List Capability)
    → All (λ v. In v available) values
    → unavailable available values ≡ []
nil_of_available available [] h = refl
nil_of_available available (v ∷ vs) h =
    ground (arith, In→contains available v, h.0, nil_of_available available vs h.1)

any_of-In :
    (available values : List Capability)
    → any_of (contains available) values ≡ true
    → (v : Capability) × In v values × In v available
any_of-In available [] e = cc
any_of-In available (v ∷ vs) e = elim (Bool-cases (contains available v)) [
  | inl here ↦ (v, inl refl, contains→In available v here)
  | inr not_here ↦ let (w, m, g) = any_of-In available vs (ground arith) in (w, inr m, g)
]

In-any_of :
    (v : Capability) (available values : List Capability)
    → In v values
    → In v available
    → any_of (contains available) values ≡ true
In-any_of v available [] m g = absurd m
In-any_of v available (w ∷ ws) (inl e) g = ground (arith, In→contains available v g)
In-any_of v available (w ∷ ws) (inr m) g = ground (arith, In-any_of v available ws m g)

append-nil_parts : (xs ys : List Capability) → xs ++ ys ≡ [] → (xs ≡ []) × (ys ≡ [])
append-nil_parts [] ys e = (refl, e)
append-nil_parts (x ∷ xs) ys e = cc

abbrev OneGranted : List Capability → List Capability → Type 0
OneGranted values available = (values ≡ []) ⊎ ((v : Capability) × In v values × In v available)

missing_any_of-nil :
    (values available : List Capability)
    → missing_any_of values available ≡ []
    → OneGranted values available
unfolding missing_any_of
missing_any_of-nil [] available e = inl refl
missing_any_of-nil (v ∷ vs) available e = inr (any_of-In available (v ∷ vs) (ground arith))

nil_of_any :
    (values available : List Capability)
    → OneGranted values available
    → missing_any_of values available ≡ []
unfolding missing_any_of
nil_of_any [] available h = refl
nil_of_any (v ∷ vs) available (inl e) = cc
nil_of_any (v ∷ vs) available (inr (w, m, g)) = rw (In-any_of w available (v ∷ vs) m g)

satisfied_lists :
    (missing values available : List Capability)
    → (is_empty missing && (is_empty values || any_of (contains available) values) ≡ true)
      ↔ (missing ++ missing_any_of values available ≡ [])
unfolding missing_any_of
satisfied_lists [] [] available = ground arith
satisfied_lists [] (v ∷ vs) available = ground arith
satisfied_lists (m ∷ ms) values available = ground arith

module _ (c : RelationCandidate) (available : List Capability) where
  -- No authority is missing exactly when the available capabilities hold all of `RequiredAll`, and
  -- one of `RequiredAny` unless that is empty.
  pub missing_authority-nil_iff : (missing_authority c available ≡ []) ↔ Granted c available
  unfolding missing_authority sort
  missing_authority-nil_iff = (
    λ e.
        let (all, any) =
          append-nil_parts (unavailable available c.required_all)
            (missing_any_of c.required_any available) (sort-nil str_ltb _ e) in
        (
          unavailable-nil available c.required_all all,
          missing_any_of-nil c.required_any available any,
        ),
    λ g. ap (sort str_ltb) (
        ap₂ ◌++◌ (nil_of_available available c.required_all g.0)
          (nil_of_any c.required_any available g.1)),
  )

  -- The trace says that the authority is satisfied exactly when `missingAuthority` finds nothing.
  pub satisfied-missing_authority :
      ((authority_trace c available).satisfied ≡ true) ↔ (missing_authority c available ≡ [])
  unfolding missing_authority authority_trace sort
  satisfied-missing_authority =
      let (to, from) =
        satisfied_lists (unavailable available c.required_all) c.required_any available in
      (λ h. ap (sort str_ltb) (to h), λ e. from (sort-nil str_ltb _ e))
