-- ===== src/Kernel/Program/Indexed.antt =====
-- What the index of a program holds, boatstack/kernel/program.go.
use boatstack.Base.{
  ◌≡◌, ◌≢◌, refl, sym, subst, ◌⊎◌, inl, inr, ◌==◌, String, none, some, List, [], ◌∷◌, arith, All,
  In, if◌then◌else◌, eq_iff, eq_refl,
}
use boatstack.Kernel.Types.{Transition}
use boatstack.Kernel.Error.{ok, ok-injective}
use boatstack.Kernel.Program.{lookup_transition, index_transitions, validate_transition}

-- no identity twice
abbrev pub HasDistinctIds : List Transition → Type 0
HasDistinctIds [] = Unit
HasDistinctIds (t ∷ ts) = All (λ u. u.id ≢ t.id) ts × HasDistinctIds ts

lookup-cons :
    (by_id : List (String × Transition)) (t : Transition) (k : String)
    → lookup_transition ((t.id, t) ∷ by_id) k
      ≡ (if t.id == k then some t else lookup_transition by_id k)
unfolding lookup_transition
lookup-cons by_id t k = refl

-- What the index of a list of transitions holds.
pub record Indexes (by_id : List (String × Transition)) (ts : List Transition)
    (out : List (String × Transition)) : Type 0 where
  pub valid : All (λ t. validate_transition t ≡ ok tt) ts
  pub fresh : All (λ t. lookup_transition by_id t.id ≡ none) ts
  pub distinct : HasDistinctIds ts
  pub found : All (λ t. lookup_transition out t.id ≡ some t) ts
  pub kept :
      (k : String) (u : Transition)
      → lookup_transition by_id k ≡ some u
      → lookup_transition out k ≡ some u
  pub only :
      (k : String) (u : Transition)
      → lookup_transition out k ≡ some u
      → (In u ts × (u.id ≡ k)) ⊎ (lookup_transition by_id k ≡ some u)

fresh-cons :
    (by_id : List (String × Transition)) (t : Transition) (ts : List Transition)
    → All (λ u. lookup_transition ((t.id, t) ∷ by_id) u.id ≡ none) ts
    → All (λ u. lookup_transition by_id u.id ≡ none) ts × All (λ u. u.id ≢ t.id) ts
unfolding lookup_transition
fresh-cons by_id t [] h = (tt, tt)
fresh-cons by_id t (u ∷ us) h =
    let (old, other) = fresh-cons by_id t us h.1 in
    ((ground (arith, h.0), old), (λ e. ground (arith, h.0, eq_iff t.id u.id), other))

index-step :
    (by_id : List (String × Transition)) (t : Transition) (ts : List Transition)
    (out : List (String × Transition))
    → index_transitions by_id (t ∷ ts) ≡ ok out
    → (validate_transition t ≡ ok tt)
      × (lookup_transition by_id t.id ≡ none)
      × (index_transitions ((t.id, t) ∷ by_id) ts ≡ ok out)
unfolding index_transitions
index-step by_id t ts out h = ground arith

-- a look-up of another identity passes the new entry by
lookup_past :
    (by_id : List (String × Transition)) (t u : Transition) (k : String)
    → lookup_transition by_id t.id ≡ none
    → lookup_transition by_id k ≡ some u
    → lookup_transition ((t.id, t) ∷ by_id) k ≡ some u
unfolding lookup_transition
lookup_past by_id t u k absent e = ground (arith, eq_iff t.id k)

lookup_cases :
    (by_id : List (String × Transition)) (t u : Transition) (k : String)
    → lookup_transition ((t.id, t) ∷ by_id) k ≡ some u
    → ((t ≡ u) × (u.id ≡ k)) ⊎ (lookup_transition by_id k ≡ some u)
unfolding lookup_transition
lookup_cases by_id t u k e = ground (arith, eq_iff t.id k)

lookup_self :
    (by_id : List (String × Transition)) (t : Transition)
    → lookup_transition ((t.id, t) ∷ by_id) t.id ≡ some t
unfolding lookup_transition
lookup_self by_id t = rw (eq_refl t.id)

pub index-Indexes :
    (by_id : List (String × Transition)) (ts : List Transition) (out : List (String × Transition))
    → index_transitions by_id ts ≡ ok out
    → Indexes by_id ts out
unfolding index_transitions
index-Indexes by_id [] out h =
    let is = ok-injective by_id out h in
    record {
      valid = tt;
      fresh = tt;
      distinct = tt;
      found = tt;
      kept = λ k u e. subst (λ m. lookup_transition m k ≡ some u) is e;
      only = λ k u e. inr (subst (λ m. lookup_transition m k ≡ some u) (sym is) e);
    }
index-Indexes by_id (t ∷ ts) out h =
    let (valid, absent, indexed) = index-step by_id t ts out h in
    let rest = index-Indexes ((t.id, t) ∷ by_id) ts out indexed in
    let (old, other) = fresh-cons by_id t ts rest.fresh in
    record {
      valid = (valid, rest.valid);
      fresh = (absent, old);
      distinct = (other, rest.distinct);
      found = (rest.kept t.id t (lookup_self by_id t), rest.found);
      kept = λ k u e. rest.kept k u (lookup_past by_id t u k absent e);
      only = λ k u e. elim (rest.only k u e) [
        | inl (m, is) ↦ inl (inr m, is)
        | inr later ↦ elim (lookup_cases by_id t u k later) [
          | inl (here, is) ↦ inl (inl here, is)
          | inr old ↦ inr old
        ]
      ];
    }
