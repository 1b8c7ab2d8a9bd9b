-- ===== src/Kernel/Program/Recoveries.antt =====
-- What the recovery relations of a program satisfy, boatstack/kernel/program.go.
use boatstack.Base.{
  ◌≡◌, ◌≢◌, refl, subst, ◌⊎◌, inl, inr, true, String, Option, none, some, List, [], ◌∷◌, arith, All,
  In, contains, contains→In, any_of, Bool-cases,
}
use boatstack.Kernel.Types.{Transition}
use boatstack.Kernel.Error.{ok, ◌>>◌, check-then}
use boatstack.Kernel.Program.{
  lookup_transition, check_source_modes, check_recovered, check_recovers, check_recoveries,
  check_recoverable,
}
use boatstack.Kernel.Program.Indexed.{Indexes}

-- A recovery transition covers what it recovers: a transition of the program, whose source modes
-- are its own too.
abbrev pub Covers : List Transition → Transition → String → Type 0
Covers ts t recovered =
    (u : Transition) × In u ts
    × (u.id ≡ recovered)
    × ((mode : String) → In mode u.source_modes → In mode t.source_modes)

source_modes-step :
    (id recovered mode : String) (own modes : List String)
    → check_source_modes id recovered own (mode ∷ modes) ≡ ok tt
    → (contains own mode ≡ true) × (check_source_modes id recovered own modes ≡ ok tt)
unfolding check_source_modes
source_modes-step id recovered mode own modes h = ground arith

source_modes_covered :
    (id recovered : String) (own modes : List String)
    → check_source_modes id recovered own modes ≡ ok tt
    → (mode : String) → In mode modes
    → In mode own
source_modes_covered id recovered own [] h m k = absurd k
source_modes_covered id recovered own (x ∷ xs) h m k =
    let (here, rest) = source_modes-step id recovered x own xs h in
    elim k [
      | inl is ↦ subst (λ y. In y own) is (contains→In own x here)
      | inr later ↦ source_modes_covered id recovered own xs rest m later
    ]

module _ {ts : List Transition} {by_id : List (String × Transition)}
    (index : Indexes [] ts by_id) where
  check_recovered-Covers :
      (t : Transition) (recovered : String) (found : Option Transition)
      → lookup_transition by_id recovered ≡ found
      → check_recovered t recovered found ≡ ok tt
      → Covers ts t recovered
  unfolding check_recovered lookup_transition
  check_recovered-Covers t recovered none e h = cc
  check_recovered-Covers t recovered (some u) e h = elim (index.only recovered u e) [
    | inl (m, is) ↦ (u, m, is, source_modes_covered t.id recovered t.source_modes u.source_modes h)
    | inr nothing ↦ cc
  ]

  recovers-step :
      (t : Transition) (r : String) (rs : List String)
      → check_recovers by_id t (r ∷ rs) ≡ ok tt
      → (check_recovered t r (lookup_transition by_id r) ≡ ok tt)
        × (check_recovers by_id t rs ≡ ok tt)
  unfolding check_recovers
  recovers-step t r rs h =
      check-then (check_recovered t r (lookup_transition by_id r)) (check_recovers by_id t rs) h

  check_recovers-Covers :
      (t : Transition) (rs : List String) → check_recovers by_id t rs ≡ ok tt → All (Covers ts t) rs
  check_recovers-Covers t [] h = tt
  check_recovers-Covers t (r ∷ rs) h =
      let (here, rest) = recovers-step t r rs h in
      (check_recovered-Covers t r _ refl here, check_recovers-Covers t rs rest)

  pub check_recoveries-Covers :
      (us : List Transition)
      → check_recoveries by_id us ≡ ok tt
      → All (λ t. All (Covers ts t) t.recovers) us
  unfolding check_recoveries
  check_recoveries-Covers [] h = tt
  check_recoveries-Covers (t ∷ us) h =
      let (_, rest) =
        check-then _ (check_recovers by_id t t.recovers >> check_recoveries by_id us) h in
      let (here, later) =
        check-then (check_recovers by_id t t.recovers) (check_recoveries by_id us) rest in
      (check_recovers-Covers t t.recovers here, check_recoveries-Covers us later)

-- A transition that is left unresolved can be recovered: it recovers something itself, or some
-- transition recovers it.
abbrev pub HasRecovery : List Transition → Transition → Type 0
HasRecovery ts t = (t.recovers ≢ []) ⊎ ((u : Transition) × In u ts × In t.id u.recovers)

any_recovers :
    (id : String) (ts : List Transition)
    → any_of (λ r. contains r.recovers id) ts ≡ true
    → (u : Transition) × In u ts × In id u.recovers
any_recovers id [] h = cc
any_recovers id (t ∷ ts) h = elim (Bool-cases (contains t.recovers id)) [
  | inl e ↦ (t, inl refl, contains→In t.recovers id e)
  | inr e ↦ let (u, m, k) = any_recovers id ts (ground arith) in (u, inr m, k)
]

recoverable-step :
    (all : List Transition) (t : Transition) (ts : List Transition)
    → check_recoverable all (t ∷ ts) ≡ ok tt
    → ((t.recovers ≢ []) ⊎ (any_of (λ r. contains r.recovers t.id) all ≡ true))
      × (check_recoverable all ts ≡ ok tt)
unfolding check_recoverable
recoverable-step all t ts h = elim (Bool-cases (any_of (λ r. contains r.recovers t.id) all)) [
  | inl e ↦ (inr e, ground arith)
  | inr e ↦ (inl (λ none_left. ground arith), ground arith)
]

pub check_recoverable-HasRecovery :
    (all ts : List Transition) → check_recoverable all ts ≡ ok tt → All (HasRecovery all) ts
check_recoverable-HasRecovery all [] h = tt
check_recoverable-HasRecovery all (t ∷ ts) h =
    let (here, rest) = recoverable-step all t ts h in
    (
      elim here [ inl own ↦ inl own | inr e ↦ inr (any_recovers t.id all e) ],
      check_recoverable-HasRecovery all ts rest,
    )
