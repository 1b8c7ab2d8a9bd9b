-- ===== src/Delivery/Supervisor/Policy/Granted.antt =====
-- Two readings of authority: AuthoritySet.Satisfies of
-- boatstack/internal/softwaredelivery/catalog/transition.go, and the capabilities that
-- supervisor.go hands to the relation of the kernel.
use text.Mathlib.TextLemmas.{append_cancel_left}
use boatstack.Base.{
  Bool, true, false, not, ◌&&◌, ◌||◌, ◌==◌, eq_iff, eq_refl, none, List, [], ◌∷◌, ◌++◌, In, inl,
  inr, ◌⊎◌, ◌≡◌, ◌↔◌, refl, sym, ap, ◌∙◌, subst, arith, Bool-cases, contains, contains→In,
  In→contains, any_of, is_empty, All, if◌then◌else◌,
}
use boatstack.Kernel.Types.{Capability}
use boatstack.Kernel.Relation.Grants.{Granted}
use boatstack.Delivery.Model.Facet.{lookup}
use boatstack.Delivery.Catalog.AuthorityClass
use boatstack.Delivery.Catalog.AuthorityClass.{AuthorityClass}
use boatstack.Delivery.Catalog.Authority.{AuthoritySet, has_authority, or_false, satisfies}
use boatstack.Delivery.Catalog.Transition.{Transition}
use boatstack.Delivery.Supervisor.Policy.{
  authority_capability, available_authority, policy_authority, required_all, required_any,
  restricted,
}
use boatstack.Delivery.Supervisor.Resolve.{Request, candidate_of}

-- A map has one entry for each key.
abbrev pub AreKeysDistinct : AuthoritySet → Type 0
AreKeysDistinct [] = Unit
AreKeysDistinct ((class, present) ∷ entries) =
    (lookup entries class ≡ none) × AreKeysDistinct entries

same_capability :
    (a b : AuthorityClass) → (authority_capability a == authority_capability b) ≡ (a == b)
unfolding authority_capability
same_capability a b = elim (Bool-cases (a == b)) [
  | inl e ↦
      subst (λ x. (authority_capability a == authority_capability x) ≡ (a == x)) ((eq_iff a b).0 e)
        (eq_refl (authority_capability a) ∙ sym (eq_refl a))
  | inr e ↦ elim (Bool-cases (authority_capability a == authority_capability b)) [
    | inl same ↦
        let equal : a ≡ b =
          append_cancel_left "authority." a b
            ((eq_iff (authority_capability a) (authority_capability b)).0 same) in
        absurd (ground (arith, (eq_iff a b).1 equal))
    | inr differ ↦ differ ∙ sym e
  ]
]

available-has :
    (s : AuthoritySet) (class : AuthorityClass)
    → AreKeysDistinct s
    → (class == AuthorityClass.none) ≡ false
    → contains (available_authority s) (authority_capability class) ≡ has_authority s class
unfolding available_authority contains
available-has [] class d n = refl
available-has ((k, true) ∷ entries) class d n = elim (Bool-cases (k == class)) [
  | inl e ↦
      let named : (k == AuthorityClass.none) ≡ false =
        ap (λ x. x == AuthorityClass.none) ((eq_iff k class).0 e) ∙ n in
      rw (named, e, same_capability k class ∙ e) refl
  | inr e ↦ elim (Bool-cases (k == AuthorityClass.none)) [
    | inl u ↦ rw (u, e) (available-has entries class d.1 n)
    | inr u ↦ rw (u, e, same_capability k class ∙ e) (available-has entries class d.1 n)
  ]
]
available-has ((k, false) ∷ entries) class d n = elim (Bool-cases (k == class)) [
  | inl e ↦ rw e (
      available-has entries class d.1 n
      ∙ ap or_false (ap (lookup entries) (sym ((eq_iff k class).0 e)) ∙ d.0))
  | inr e ↦ rw e (available-has entries class d.1 n)
]

split_test :
    (missing empty has : Bool)
    → (if missing then false else if empty then true else has) ≡ true
    → (missing ≡ false) × ((empty || has) ≡ true)
split_test missing empty has h = ground arith

join_test :
    (missing empty has : Bool)
    → missing ≡ false
    → (empty || has) ≡ true
    → (if missing then false else if empty then true else has) ≡ true
join_test missing empty has h k = ground arith

restricted-cons :
    (class : AuthorityClass) (classes : List AuthorityClass)
    → (class == AuthorityClass.none) ≡ false
    → ¬ (restricted (class ∷ classes) ≡ [])
restricted-cons class classes n h =
    let held : In (authority_capability class) (restricted (class ∷ classes)) = rw n (inl refl) in
    subst (In (authority_capability class)) h held

none_among :
    (s : AuthoritySet) (classes : List AuthorityClass)
    → any_of (λ class. class == AuthorityClass.none) classes ≡ true
    → any_of (λ class. class == AuthorityClass.none || has_authority s class) classes ≡ true
none_among s [] h = cc
none_among s (class ∷ classes) h = ground (arith, none_among s classes)

module _ (s : AuthoritySet) (distinct : AreKeysDistinct s) where
  -- All that is required is available exactly if no class of it is missing.
  all_granted :
      (classes : List AuthorityClass)
      → All (λ v. In v (available_authority s)) (restricted classes) ↔ (
          any_of
            (λ class. not (class == AuthorityClass.none) && not (has_authority s class))
            classes
          ≡ false)
  all_granted [] = (λ h. refl, λ h. tt)
  all_granted (class ∷ classes) = elim (Bool-cases (class == AuthorityClass.none)) [
    | inl e ↦ rw e (all_granted classes)
    | inr e ↦
        let known = available-has s class distinct e in
        rw e (
          λ h.
              rw (sym known ∙ In→contains (available_authority s) (authority_capability class) h.0)
                ((all_granted classes).0 h.1),
          λ h. (
            contains→In (available_authority s) (authority_capability class)
                (known ∙ ground (arith)),
            (all_granted classes).1 (ground arith),
          ),
        )
  ]

  -- One of the alternatives is available exactly if the set has one of their classes.
  any_granted :
      (classes : List AuthorityClass)
      → any_of (λ class. class == AuthorityClass.none) classes ≡ false
      → (any_of (λ class. class == AuthorityClass.none || has_authority s class) classes ≡ true)
        ↔ ((v : Capability) × In v (restricted classes) × In v (available_authority s))
  any_granted [] n = (λ h. cc, λ (v, m, k). absurd m)
  any_granted (class ∷ classes) n =
      let named : (class == AuthorityClass.none) ≡ false = ground arith in
      let others : any_of (λ class. class == AuthorityClass.none) classes ≡ false = ground arith in
      let known = available-has s class distinct named in
      let rest = any_granted classes others in
      rw named (
        λ h. elim (Bool-cases (has_authority s class)) [
          | inl e ↦ (
            authority_capability class,
            inl refl,
            contains→In (available_authority s) (authority_capability class) (known ∙ e),
          )
          | inr e ↦ let (v, m, k) = rest.0 (ground (arith)) in (v, inr m, k)
        ],
        λ (v, m, k). elim m [
          | inl e ↦
              let held =
                sym known
                ∙ In→contains (available_authority s) (authority_capability class)
                    (subst (λ x. In x (available_authority s)) (sym e) k) in
              ground (arith, held)
          | inr m ↦ ground (arith, rest.1 (v, m, k))
        ],
      )

  -- The alternatives as a whole.
  alternatives_granted :
      (classes : List AuthorityClass)
      → ((is_empty classes
            || any_of (λ class. class == AuthorityClass.none || has_authority s class) classes)
          ≡ true)
        ↔ (let any =
              if any_of (λ class. class == AuthorityClass.none) classes
              then []
              else restricted classes in
            (any ≡ []) ⊎ ((v : Capability) × In v any × In v (available_authority s)))
  alternatives_granted [] = (λ h. inl refl, λ h. refl)
  alternatives_granted (class ∷ classes) =
      elim (Bool-cases (any_of (λ class. class == AuthorityClass.none) (class ∷ classes))) [
        | inl e ↦ rw e (λ h. inl refl, λ h. none_among s (class ∷ classes) e)
        | inr e ↦
            let any = any_granted (class ∷ classes) e in
            rw e (
              λ h. inr (any.0 h),
              λ h. elim h [
                | inl empty ↦ absurd (restricted-cons class classes (ground arith) empty)
                | inr found ↦ any.1 found
              ],
            )
      ]

append-nil : (xs : List Capability) → xs ++ [] ≡ xs
append-nil [] = refl
append-nil (x ∷ xs) = ap (λ l. x ∷ l) (append-nil xs)

no_rule-policy_authority :
    (r : Request) (t : Transition)
    → t.policy.authority_rule ≡ ""
    → policy_authority r.snapshot t ≡ []
unfolding policy_authority
no_rule-policy_authority r t e = rw e refl

-- For a transition without a rule on its authority, and a set with one entry for each class, the
-- relation of the kernel finds the authority granted exactly if AuthoritySet.Satisfies does.
pub satisfies-Granted :
    (r : Request) (t : Transition)
    → AreKeysDistinct r.authority
    → t.policy.authority_rule ≡ ""
    → (satisfies r.authority t.authority t.authority_all ≡ true)
      ↔ Granted (candidate_of r t) (available_authority r.authority)
unfolding satisfies required_all required_any
satisfies-Granted r t distinct rule =
    let s = r.authority in
    let all = all_granted s distinct t.authority_all in
    let any = alternatives_granted s distinct t.authority in
    let among =
      any_of (λ class. class == AuthorityClass.none || has_authority s class) t.authority in
    let same : restricted t.authority_all ++ policy_authority r.snapshot t
        ≡ restricted t.authority_all =
      ap (λ l. restricted t.authority_all ++ l) (no_rule-policy_authority r t rule)
      ∙ append-nil (restricted t.authority_all) in
    (
      λ h.
          let (complete, some_of) = split_test _ (is_empty t.authority) among h in
          (
            subst (All (λ v. In v (available_authority s))) (sym same) (all.1 complete),
            any.0 some_of,
          ),
      λ (h, k).
          join_test _ (is_empty t.authority) among
            (all.0 (subst (All (λ v. In v (available_authority s))) same h)) (any.1 k),
    )
