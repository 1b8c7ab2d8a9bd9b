-- ===== src/Delivery/Catalog/Registry/Maps.antt =====
-- The maps that New makes of the transitions, boatstack/internal/softwaredelivery/catalog/transition.go.
use boatstack.Base.{
  is_some, ℕ, suc, String, false, ◌==◌, eq_iff, eq_refl, Option, none, some, List, [], ◌∷◌, In, inl,
  inr, ◌⊎◌, ◌≡◌, refl, sym, ap, subst, arith, Bool-cases,
}
use boatstack.Kernel.Error.{
  Check, ok, err, >>=-eq-ok, check-then, refuse_if-eq-ok, refuse_if, ok-injective,
}
use boatstack.Delivery.Ports.{Library}
use boatstack.Delivery.Model.Facet.{lookup}
use boatstack.Delivery.Catalog.Transition.{Transition, TransitionId}
use boatstack.Delivery.Catalog.Validate.{validate_transition}
use boatstack.Delivery.Catalog.Registry.{
  RegistryMaps, claim_operation, claim_operations, register, wrap_index,
}

none-some :
    {V : Type 0} (f : String → Option V) {a b : String} {v : V}
    → a ≡ b
    → f a ≡ none
    → ¬ (f b ≡ some v)
none-some f e h k = cc (ap f e)

module _ {V : Type 0} where
  pub lookup-here :
      (key : String) (v : V) (m : List (String × V)) → lookup ((key, v) ∷ m) key ≡ some v
  lookup-here key v m = rw (eq_refl key) refl

  -- A new key does not hide an old one.
  pub lookup-later :
      (key old : String) (v w : V) (m : List (String × V))
      → lookup m key ≡ none
      → lookup m old ≡ some w
      → lookup ((key, v) ∷ m) old ≡ some w
  lookup-later key old v w m fresh h = elim (Bool-cases (key == old)) [
    | inl e ↦ absurd (none-some (lookup m) ((eq_iff key old).0 e) fresh h)
    | inr e ↦ rw e h
  ]

  pub lookup-inverse :
      (key old : String) (v w : V) (m : List (String × V))
      → lookup ((key, v) ∷ m) old ≡ some w
      → ((key ≡ old) × (v ≡ w)) ⊎ (lookup m old ≡ some w)
  lookup-inverse key old v w m h = ground (arith, eq_iff key old)

module _ (id : TransitionId) where
  not_owned :
      (operation : String) (o : Option TransitionId)
      → claim_operation id operation o ≡ ok tt
      → o ≡ none
  not_owned operation none h = refl
  not_owned operation (some prior) h = cc

  pub claims-kept :
      (owners : List (String × TransitionId)) (ops : List String)
      {claimed : List (String × TransitionId)} (op : String) (owner : TransitionId)
      → claim_operations id owners ops ≡ ok claimed
      → lookup owners op ≡ some owner
      → lookup claimed op ≡ some owner
  unfolding claim_operations
  claims-kept owners [] op owner h k = subst (λ m. lookup m op ≡ some owner) (ok-injective _ _ h) k
  claims-kept owners (o ∷ ops) op owner h k =
      let (free, h) = check-then (claim_operation id o (lookup owners o)) _ h in
      claims-kept ((o, id) ∷ owners) ops op owner h
        (lookup-later o op id owner owners (not_owned o _ free) k)

  pub claims-made :
      (owners : List (String × TransitionId)) (ops : List String)
      {claimed : List (String × TransitionId)} (op : String)
      → claim_operations id owners ops ≡ ok claimed
      → In op ops
      → lookup claimed op ≡ some id
  unfolding claim_operations
  claims-made owners [] op h m = absurd m
  claims-made owners (o ∷ ops) op h (inl e) =
      let (free, h) = check-then (claim_operation id o (lookup owners o)) _ h in
      claims-kept ((o, id) ∷ owners) ops op id h
        (subst (λ x. lookup ((o, id) ∷ owners) x ≡ some id) e (lookup-here o id owners))
  claims-made owners (o ∷ ops) op h (inr m) =
      let (free, h) = check-then (claim_operation id o (lookup owners o)) _ h in
      claims-made ((o, id) ∷ owners) ops op h m

  pub claims_sound :
      (owners : List (String × TransitionId)) (ops : List String)
      {claimed : List (String × TransitionId)} (op : String) (owner : TransitionId)
      → claim_operations id owners ops ≡ ok claimed
      → lookup claimed op ≡ some owner
      → ((id ≡ owner) × In op ops) ⊎ (lookup owners op ≡ some owner)
  unfolding claim_operations
  claims_sound owners [] op owner h k =
      inr (subst (λ m. lookup m op ≡ some owner) (sym (ok-injective _ _ h)) k)
  claims_sound owners (o ∷ ops) op owner h k =
      let (free, h) = check-then (claim_operation id o (lookup owners o)) _ h in
      elim (claims_sound ((o, id) ∷ owners) ops op owner h k) [
        | inl (same, m) ↦ inl (same, inr m)
        | inr found ↦ elim (lookup-inverse o op id owner owners found) [
          | inl (named, same) ↦ inl (same, inl named)
          | inr found ↦ inr found
        ]
      ]

wrap_index-ok : (index : ℕ) (c : Check) → wrap_index index c ≡ ok tt → c ≡ ok tt
wrap_index-ok index (ok _) h = refl
wrap_index-ok index (err e) h = cc

fresh : {A : Type 0} (o : Option A) → is_some o ≡ false → o ≡ none
fresh none h = refl
fresh (some a) h = cc

-- What one round of `register` did.
pub record IsRegistered (library : Library) (index : ℕ) (maps : RegistryMaps) (t : Transition)
    (ts : List Transition) (made : RegistryMaps) : Type 0 where
  pub is_valid : validate_transition library t ≡ ok tt
  pub is_new : lookup maps.0 t.id ≡ none
  pub claimed : List (String × TransitionId)
  pub claims : claim_operations t.id maps.1 t.policy.managed_operations ≡ ok claimed
  pub rest : register library (suc index) ((t.id, t) ∷ maps.0, claimed) ts ≡ ok made

pub register-inverse :
    (library : Library) (index : ℕ) (maps : RegistryMaps) (t : Transition) (ts : List Transition)
    {made : RegistryMaps}
    → register library index maps (t ∷ ts) ≡ ok made
    → IsRegistered library index maps t ts made
unfolding register
register-inverse library index maps t ts h =
    let (valid, h) = check-then (wrap_index index (validate_transition library t)) _ h in
    let (new, h) = check-then (refuse_if (is_some (lookup maps.0 t.id)) _) _ h in
    let (claimed, claims, h) =
      >>=-eq-ok (claim_operations t.id maps.1 t.policy.managed_operations) _ h in
    record {
      is_valid = wrap_index-ok index _ valid;
      is_new = fresh _ (refuse_if-eq-ok _ _ new);
      claimed = claimed;
      claims = claims;
      rest = h;
    }
