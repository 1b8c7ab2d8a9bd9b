-- ===== src/Delivery/Catalog/Registry/WellFormed.antt =====
-- The registry that New returns, boatstack/internal/softwaredelivery/catalog/transition.go.
use boatstack.Base.{
  some-injective, ℕ, suc, String, false, not, ◌&&◌, ◌==◌, eq_iff, Option, none, some, List, [], ◌∷◌,
  In, inl, inr, ◌⊎◌, ◌≡◌, ◌≢◌, ◌↔◌, refl, sym, ap, ◌∙◌, subst, arith,
}
use boatstack.Base.Sort.{sort, IsSorted, IsStrictWeak, In-sort, In-of_sort, sort-IsSorted}
use boatstack.Kernel.Error.{ok, >>=-eq-ok, check-then, refuse_if-then, ok-injective}
use boatstack.Kernel.Relation.{RelationCandidate}
use boatstack.Kernel.Relation.Order.{candidate_order}
use boatstack.Delivery.Ports.{Library}
use boatstack.Delivery.Model.Facet.{lookup}
use boatstack.Delivery.Catalog.EventClass
use boatstack.Delivery.Catalog.Transition.{Transition, TransitionId}
use boatstack.Delivery.Catalog.Evaluation.{rank}
use boatstack.Delivery.Catalog.Validate.{validate_transition}
use boatstack.Delivery.Catalog.Registry.{
  Registry, RegistryMaps, check_recoveries, is_no_recovery, lookup_owner, lookup_transition,
  managed_transition, new_registry, register, transition_before,
}
use boatstack.Delivery.Catalog.Registry.Maps.{
  claims-kept, claims-made, claims_sound, lookup-here, lookup-inverse, lookup-later,
  register-inverse,
}

as_candidate : Transition → RelationCandidate
as_candidate t = record {
  id = t.id;
  rank = rank t.selection_class;
  priority = t.priority;
  selectable = false;
  required_all = [];
  required_any = [];
}

transition_order : IsStrictWeak transition_before
unfolding as_candidate
transition_order = record {
  asym = λ a b. candidate_order.asym (as_candidate a) (as_candidate b);
  trans = λ a b c. candidate_order.trans (as_candidate a) (as_candidate b) (as_candidate c);
}

module _ (library : Library) where
  -- Entries of the two maps stay as they are.
  kept_by_id :
      (index : ℕ) (maps : RegistryMaps) (ts : List Transition) {made : RegistryMaps}
      (id : TransitionId) (u : Transition)
      → register library index maps ts ≡ ok made
      → lookup maps.0 id ≡ some u
      → lookup made.0 id ≡ some u
  unfolding register
  kept_by_id index maps [] id u h k =
      subst (λ (m : RegistryMaps). lookup m.0 id ≡ some u) (ok-injective _ _ h) k
  kept_by_id index maps (t ∷ ts) id u h k =
      let r = register-inverse library index maps t ts h in
      kept_by_id (suc index) _ ts id u r.rest (lookup-later t.id id t u maps.0 r.is_new k)

  kept_owner :
      (index : ℕ) (maps : RegistryMaps) (ts : List Transition) {made : RegistryMaps} (op : String)
      (id : TransitionId)
      → register library index maps ts ≡ ok made
      → lookup maps.1 op ≡ some id
      → lookup made.1 op ≡ some id
  unfolding register
  kept_owner index maps [] op id h k =
      subst (λ (m : RegistryMaps). lookup m.1 op ≡ some id) (ok-injective _ _ h) k
  kept_owner index maps (t ∷ ts) op id h k =
      let r = register-inverse library index maps t ts h in
      kept_owner (suc index) _ ts op id r.rest
        (claims-kept t.id maps.1 t.policy.managed_operations op id r.claims k)

  -- What the maps say of one of the transitions.
  record IsEntered (made : RegistryMaps) (t : Transition) : Type 0 where
    is_valid : validate_transition library t ≡ ok tt
    by_id : lookup made.0 t.id ≡ some t
    owns : (op : String) → In op t.policy.managed_operations → lookup made.1 op ≡ some t.id

  entered :
      (index : ℕ) (maps : RegistryMaps) (ts : List Transition) {made : RegistryMaps}
      (t : Transition)
      → register library index maps ts ≡ ok made
      → In t ts
      → IsEntered made t
  entered index maps [] t h m = absurd m
  entered index maps (u ∷ ts) {made = made} t h (inl e) =
      let r = register-inverse library index maps u ts h in
      subst (IsEntered made) e (record {
        is_valid = r.is_valid;
        by_id = kept_by_id (suc index) _ ts u.id u r.rest (lookup-here u.id u maps.0);
        owns = λ op m.
            kept_owner (suc index) _ ts op u.id r.rest
              (claims-made u.id maps.1 u.policy.managed_operations op r.claims m);
      })
  entered index maps (u ∷ ts) t h (inr m) =
      let r = register-inverse library index maps u ts h in entered (suc index) _ ts t r.rest m

  -- The maps say nothing else.
  found :
      (index : ℕ) (maps : RegistryMaps) (ts : List Transition) {made : RegistryMaps}
      (id : TransitionId) (t : Transition)
      → register library index maps ts ≡ ok made
      → lookup made.0 id ≡ some t
      → (In t ts × (t.id ≡ id)) ⊎ (lookup maps.0 id ≡ some t)
  unfolding register
  found index maps [] id t h k =
      inr (subst (λ (m : RegistryMaps). lookup m.0 id ≡ some t) (sym (ok-injective _ _ h)) k)
  found index maps (u ∷ ts) id t h k =
      let r = register-inverse library index maps u ts h in
      elim (found (suc index) _ ts id t r.rest k) [
        | inl (m, named) ↦ inl (inr m, named)
        | inr later ↦ elim (lookup-inverse u.id id u t maps.0 later) [
          | inl (named, same) ↦ inl (inl same, ap (λ (x : Transition). x.id) (sym same) ∙ named)
          | inr before ↦ inr before
        ]
      ]

  owned :
      (index : ℕ) (maps : RegistryMaps) (ts : List Transition) {made : RegistryMaps} (op : String)
      (id : TransitionId)
      → register library index maps ts ≡ ok made
      → lookup made.1 op ≡ some id
      → ((t : Transition) × In t ts × (t.id ≡ id) × In op t.policy.managed_operations)
        ⊎ (lookup maps.1 op ≡ some id)
  unfolding register
  owned index maps [] op id h k =
      inr (subst (λ (m : RegistryMaps). lookup m.1 op ≡ some id) (sym (ok-injective _ _ h)) k)
  owned index maps (u ∷ ts) op id h k =
      let r = register-inverse library index maps u ts h in
      elim (owned (suc index) _ ts op id r.rest k) [
        | inl (t, m, named, at) ↦ inl (t, inr m, named, at)
        | inr later ↦
            elim (claims_sound u.id maps.1 u.policy.managed_operations op id r.claims later) [
              | inl (named, at) ↦ inl (u, inl refl, named, at)
              | inr before ↦ inr before
            ]
      ]

is_recovery :
    (o : Option Transition)
    → is_no_recovery o ≡ false
    → (u : Transition) × (o ≡ some u) × (u.class ≡ EventClass.recovery)
is_recovery none h = cc
is_recovery (some u) h = (u, refl, ground (arith, eq_iff u.class EventClass.recovery))

recoveries :
    (by_id : List (TransitionId × Transition)) (ts : List Transition) (t : Transition)
    → check_recoveries by_id ts ≡ ok tt
    → In t ts
    → t.interruption.recovery ≢ ""
    → (u : Transition) × (lookup by_id t.interruption.recovery ≡ some u)
      × (u.class ≡ EventClass.recovery)
unfolding check_recoveries
recoveries by_id [] t h m n = absurd m
recoveries by_id (u ∷ ts) t h (inl e) n =
    let (accepted, h) =
      refuse_if-then
        (not (u.interruption.recovery == "")
          && is_no_recovery (lookup by_id u.interruption.recovery))
        _ _ h in
    subst
      (λ (x : Transition).
        x.interruption.recovery ≢ ""
        → (v : Transition) × (lookup by_id x.interruption.recovery ≡ some v)
          × (v.class ≡ EventClass.recovery))
      e (λ n. is_recovery _ (ground (arith, accepted, eq_iff u.interruption.recovery ""))) n
recoveries by_id (u ∷ ts) t h (inr m) n =
    let (_, h) =
      refuse_if-then
        (not (u.interruption.recovery == "")
          && is_no_recovery (lookup by_id u.interruption.recovery))
        _ _ h in
    recoveries by_id ts t h m n

-- What New promises of the registry of a list of transitions.
pub record IsRegistry (library : Library) (ts : List Transition) (r : Registry) : Type 0 where
  pub same_members : (t : Transition) → In t r.ordered ↔ In t ts
  pub in_order : IsSorted transition_before r.ordered
  pub all_valid : (t : Transition) → In t r.ordered → validate_transition library t ≡ ok tt
  pub finds : (t : Transition) → In t r.ordered → lookup_transition r t.id ≡ some t
  pub finds_only :
      (id : TransitionId) (t : Transition)
      → lookup_transition r id ≡ some t
      → In t r.ordered × (t.id ≡ id)
  pub manages :
      (t : Transition) (op : String)
      → In t r.ordered
      → In op t.policy.managed_operations
      → managed_transition r op ≡ some t
  pub manages_only :
      (op : String) (t : Transition)
      → managed_transition r op ≡ some t
      → In t r.ordered × In op t.policy.managed_operations
  pub recovers :
      (t : Transition)
      → In t r.ordered
      → t.interruption.recovery ≢ ""
      → (u : Transition) × (lookup_transition r t.interruption.recovery ≡ some u)
        × (u.class ≡ EventClass.recovery)

lookup_owner-some :
    (r : Registry) (o : Option TransitionId) (t : Transition)
    → lookup_owner r o ≡ some t
    → (id : TransitionId) × (o ≡ some id) × (lookup r.by_id id ≡ some t)
lookup_owner-some r none t h = cc
lookup_owner-some r (some id) t h = (id, refl, h)

module _ (library : Library) (ts : List Transition) (maps : RegistryMaps)
    (registered : register library 0 ([], []) ts ≡ ok maps) where
  at_entry : (t : Transition) → In t ts → IsEntered library maps t
  at_entry t m = entered library 0 ([], []) ts t registered m

  only_entry :
      (id : TransitionId) (t : Transition) → lookup maps.0 id ≡ some t → In t ts × (t.id ≡ id)
  only_entry id t k = elim (found library 0 ([], []) ts id t registered k) [
    | inl at ↦ at
    | inr e ↦ cc
  ]

  only_owner :
      (op : String) (id : TransitionId) (t : Transition)
      → lookup maps.1 op ≡ some id
      → lookup maps.0 id ≡ some t
      → In t ts × In op t.policy.managed_operations
  only_owner op id t k l = elim (owned library 0 ([], []) ts op id registered k) [
    | inl (u, m, named, at) ↦
        let same : u ≡ t =
          some-injective u t (sym ((at_entry u m).by_id) ∙ ap (lookup maps.0) named ∙ l) in
        (
          subst (λ x. In x ts) same m,
          subst (λ (x : Transition). In op x.policy.managed_operations) same at,
        )
    | inr e ↦ cc
  ]

-- A registry that New returns holds the given transitions in the order of rank, priority and
-- identity; each is valid, is found by its identity and by each operation that it manages, nothing
-- else is found, and each recovery that one refers to is a recovery transition.
pub new_registry-IsRegistry :
    (library : Library) (ts : List Transition) (r : Registry)
    → new_registry library ts ≡ ok r
    → IsRegistry library ts r
unfolding new_registry lookup_transition managed_transition
new_registry-IsRegistry library ts r h =
    let (maps, registered, h) = >>=-eq-ok (register library 0 ([], []) ts) _ h in
    let (recovered, h) = check-then (check_recoveries maps.0 ts) _ h in
    let given : (t : Transition) → In t (sort transition_before ts) → In t ts =
      λ t. In-sort transition_before t ts in
    let ordered : (t : Transition) → In t ts → In t (sort transition_before ts) =
      λ t. In-of_sort transition_before t ts in
    let made : Registry = record {
      ordered = sort transition_before ts;
      by_id = maps.0;
      managed_operation = maps.1;
    } in
    subst (IsRegistry library ts) (ok-injective _ _ h) (record {
      same_members = λ t. (given t, ordered t);
      in_order = sort-IsSorted transition_order ts;
      all_valid = λ t m. (at_entry library ts maps registered t (given t m)).is_valid;
      finds = λ t m. (at_entry library ts maps registered t (given t m)).by_id;
      finds_only = λ id t k.
          let (m, named) = only_entry library ts maps registered id t k in (ordered t m, named);
      manages = λ t op m k.
          let entry = at_entry library ts maps registered t (given t m) in
          rw (entry.owns op k) entry.by_id;
      manages_only = λ op t k.
          let (id, owner, at) = lookup_owner-some made (lookup maps.1 op) t k in
          let (m, k) = only_owner library ts maps registered op id t owner at in (ordered t m, k);
      recovers = λ t m n. recoveries maps.0 ts t recovered (given t m) n;
    })
