-- ===== src/Kernel/Authority/Projection.antt =====
-- What the projection of an authority rests on.
use boatstack.Base.{
  ℕ, ◌≡◌, ◌≢◌, refl, sym, subst, ◌↔◌, ◌⊎◌, inl, inr, ◌≤◌, ◌<◌, false, String, List, [], ◌∷◌, ◌++◌,
  map, arith, All, All-In, eq_iff, In, In-append_cases, In-append_left, In-append_right, contains,
}
use boatstack.Base.Sort.{sort, In-sort, In-of_sort}
use boatstack.Kernel.Types.{Capability, AuthorityReceipt, AuthorityProjection}
use boatstack.Kernel.Error.{ok, >>=-eq-ok, refuse_if-eq-ok, ok-injective}
use boatstack.Kernel.Codec.{Codec, content_hash}
use boatstack.Kernel.Capability.{normalize_capabilities}
use boatstack.Kernel.Capability.Normal.{normalize-IsNormalOf, IsAscending, IsDistinct}
use boatstack.Kernel.Authority.{validate_receipt_at, receipt_before, admit_receipts, projection}

-- The receipt is in force at `now`.
pub record InForce (now : ℕ) (r : AuthorityReceipt) : Type 0 where
  pub issued : (0 < r.issued_at) × (r.issued_at ≤ now)
  pub not_expired : (r.expires_at ≡ 0) ⊎ (now < r.expires_at)
  pub grants : r.capabilities ≢ []

validate-InForce :
    (now : ℕ) (r : AuthorityReceipt) → validate_receipt_at now r ≡ ok tt → InForce now r
unfolding validate_receipt_at
validate-InForce now r h = ground arith

-- some receipt of the list grants the capability
abbrev pub GrantedBy : List AuthorityReceipt → Capability → Type 0
GrantedBy receipts c = (r : AuthorityReceipt) × In r receipts × In c r.capabilities

fresh_ids :
    (id : String) (seen : List String) (rs : List AuthorityReceipt)
    → All (λ r. contains (id ∷ seen) r.id ≡ false) rs
    → All (λ r. contains seen r.id ≡ false) rs × (contains (map (λ r. r.id) rs) id ≡ false)
unfolding contains
fresh_ids id seen [] h = (tt, refl)
fresh_ids id seen (r ∷ rs) h =
    let (old, new) = fresh_ids id seen rs h.1 in
    ((ground (arith, h.0), old), ground (arith, h.0, new, eq_iff id r.id, eq_iff r.id id))

record Admits (now : ℕ) (seen : List String) (granted : List Capability)
    (receipts : List AuthorityReceipt) (result : List Capability) : Type 0 where
  pub in_force : All (InForce now) receipts
  pub new : All (λ r. contains seen r.id ≡ false) receipts
  pub distinct : IsDistinct (map (λ r. r.id) receipts)
  pub from : (c : Capability) → In c result → In c granted ⊎ GrantedBy receipts c
  pub onto : (c : Capability) → In c granted ⊎ GrantedBy receipts c → In c result

GrantedBy-cases :
    (r : AuthorityReceipt) (rs : List AuthorityReceipt) (c : Capability)
    → GrantedBy (r ∷ rs) c
    → In c r.capabilities ⊎ GrantedBy rs c
GrantedBy-cases r rs c (s, inl is, m) = inl (subst (λ x. In c x.capabilities) (sym is) m)
GrantedBy-cases r rs c (s, inr k, m) = inr (s, k, m)

admit_sound :
    (now : ℕ) (seen : List String) (granted : List Capability) (receipts : List AuthorityReceipt)
    (result : List Capability)
    → admit_receipts now seen granted receipts ≡ ok result
    → Admits now seen granted receipts result
unfolding admit_receipts
admit_sound now seen granted [] result h =
    let is = ok-injective granted result h in
    record {
      in_force = tt;
      new = tt;
      distinct = tt;
      from = λ c m. inl (subst (In c) (sym is) m);
      onto =
          λ c m. elim m [ inl k ↦ subst (In c) is k | inr (r, none_there, _) ↦ absurd none_there ];
    }
admit_sound now seen granted (r ∷ rs) result h =
    let (_, valid, h₁) = >>=-eq-ok (validate_receipt_at now r) _ h in
    let (_, unseen, h₂) = >>=-eq-ok _ _ h₁ in
    let rest = admit_sound now (r.id ∷ seen) (granted ++ r.capabilities) rs result h₂ in
    let (old, other) = fresh_ids r.id seen rs rest.new in
    record {
      in_force = (validate-InForce now r valid, rest.in_force);
      new = (refuse_if-eq-ok _ _ unseen, old);
      distinct = (other, rest.distinct);
      from = λ c m. elim (rest.from c m) [
        | inl k ↦ elim (In-append_cases c granted r.capabilities k) [
          | inl g ↦ inl g
          | inr own ↦ inr (r, inl refl, own)
        ]
        | inr (s, k, g) ↦ inr (s, inr k, g)
      ];
      onto = λ c m. rest.onto c (elim m [
        | inl g ↦ inl (In-append_left c granted r.capabilities g)
        | inr by ↦ elim (GrantedBy-cases r rs c by) [
          | inl own ↦ inl (In-append_right c granted r.capabilities own)
          | inr later ↦ inr later
        ]
      ]);
    }

-- An authority that is accepted at `now`: its receipts are in force and have different identities,
-- and it grants what one of them grants, once each and in ascending order.
pub record Projects (now : ℕ) (given : List AuthorityReceipt) (result : AuthorityProjection)
    : Type 0 where
  pub in_force : (r : AuthorityReceipt) → In r given → InForce now r
  pub distinct : IsDistinct (map (λ r. r.id) (sort receipt_before given))
  pub ascending : IsAscending result.capabilities
  pub granted : (c : Capability) → In c result.capabilities ↔ GrantedBy given c

-- Where `projection` returns a result, each receipt is valid at that time, issued and not expired,
-- no two have one identity, and the result grants exactly what one of them grants, in ascending
-- order.
pub projection-Projects :
    (codec : Codec) (now : ℕ) (given : List AuthorityReceipt) (result : AuthorityProjection)
    → projection codec now given ≡ ok result
    → Projects now given result
unfolding projection
projection-Projects codec now given result h =
    let receipts = sort receipt_before given in
    let (granted, admitted, h₁) = >>=-eq-ok (admit_receipts now [] [] receipts) _ h in
    let (capabilities, normal, h₂) = >>=-eq-ok (normalize_capabilities granted) _ h₁ in
    let (fingerprint, hashed, h₃) =
      >>=-eq-ok (content_hash codec (codec.marshal_receipts receipts)) _ h₂ in
    let a = admit_sound now [] [] receipts granted admitted in
    let n = normalize-IsNormalOf granted capabilities normal in
    subst (Projects now given) (ok-injective _ result h₃) (record {
      in_force =
          λ r m. All-In (InForce now) receipts a.in_force (In-of_sort receipt_before r given m);
      distinct = a.distinct;
      ascending = n.ascending;
      granted = λ c. (
        λ m. elim (a.from c ((n.same c).0 m)) [
          | inl k ↦ absurd k
          | inr (r, k, g) ↦ (r, In-sort receipt_before r given k, g)
        ],
        λ m. (n.same c).1 (a.onto c (inr (m.0, In-of_sort receipt_before m.0 given m.1, m.2))),
      );
    })
