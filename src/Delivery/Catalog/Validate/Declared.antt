-- ===== src/Delivery/Catalog/Validate/Declared.antt =====
-- What validateTransition of boatstack/internal/softwaredelivery/catalog/transition.go demands of the
-- classes of a transition, of the state that it owns and of its capabilities.
use boatstack.Base.{
  String, Bool, true, false, not, ◌&&◌, ◌||◌, ◌==◌, eq_iff, List, [], ◌∷◌, In, inl, inr, ◌⊎◌, ◌≡◌,
  ◌≢◌, ◌↔◌, ap, subst, arith, All, All-In, All-of_In, none, contains, is_empty, if◌then◌else◌,
}
use boatstack.Kernel.Error.{
  Check, Result, Error, ok, err, >>=-eq-ok, check-then, refuse_if-then, ok-injective,
}
use boatstack.Base.Text.{str_ltb}
use boatstack.Base.Sort.{sort, In-of_sort}
use boatstack.Delivery.Model.StateFacets.{check_state_facets, normalize_state_facets}
use boatstack.Delivery.Ports.{Library}
use boatstack.Delivery.Model.StateFacet
use boatstack.Delivery.Model.StateFacet.{StateFacet}
use boatstack.Delivery.Catalog.OriginKind
use boatstack.Delivery.Catalog.SelectionClass
use boatstack.Delivery.Catalog.EventClass
use boatstack.Delivery.Catalog.EventClass.{EventClass}
use boatstack.Delivery.Catalog.SelectionClass.{SelectionClass}
use boatstack.Delivery.Catalog.SemanticId.{semantic_id}
use boatstack.Delivery.Catalog.Transition.{Transition}
use boatstack.Delivery.Catalog.Evaluation.{controllable}
use boatstack.Delivery.Catalog.Authority.{
  kernel_effect_capabilities, required_capabilities, new_capability_set, normalize_capabilities,
  union_capabilities,
}
use boatstack.Delivery.Catalog.Authority.Sets.{
  In-normalize, missing-none, new_set-In, normalize-In, union-cases, union-full, union-In,
}
use boatstack.Delivery.Catalog.StateFacetPolicy.{
  StateFacetPolicy, all_state_facets, check_origin, durable_state_facet_policy, owned_policy,
  refuse_facets, require_writes,
}
use boatstack.Delivery.Catalog.StateEffect.{validate_state_effect}
use boatstack.Delivery.Catalog.Validate.{
  check_classes, check_effects, check_scope, undeclared_capability, validate_selection_ownership,
  validate_transition, reserves,
}

-- The selection class is one of recovery, and the origin's own.
abbrev pub IsRecoverySelection : Transition → Type 0
IsRecoverySelection t =
    ((t.selection_class ≡ SelectionClass.system_recovery)
      × (t.origin.kind ≡ OriginKind.core_system))
    ⊎ ((t.selection_class ≡ SelectionClass.program_recovery)
        × (t.origin.kind ≡ OriginKind.control_program))
    ⊎ ((t.selection_class ≡ SelectionClass.extension_recovery)
        × (t.origin.kind ≡ OriginKind.extension))

module _ (t : Transition) where
  reserved :
      (kind : String)
      → reserves t kind ≡ false
      → (t.origin.kind ≡ kind) × (t.class ≡ EventClass.recovery)
  reserved kind h = (
    ground (arith, eq_iff t.origin.kind kind),
    ground (arith, eq_iff t.class EventClass.recovery),
  )

  selection_to :
      validate_selection_ownership t ≡ ok tt → t.class ≡ EventClass.recovery → IsRecoverySelection t
  unfolding validate_selection_ownership
  selection_to h is = ground (
    arith,
    eq_iff t.selection_class SelectionClass.system_recovery,
    eq_iff t.selection_class SelectionClass.program_recovery,
    eq_iff t.selection_class SelectionClass.extension_recovery,
    eq_iff t.origin.kind OriginKind.core_system,
    eq_iff t.origin.kind OriginKind.control_program,
    eq_iff t.origin.kind OriginKind.extension,
    eq_iff t.class EventClass.recovery,
  )

  selection_from :
      validate_selection_ownership t ≡ ok tt → IsRecoverySelection t → t.class ≡ EventClass.recovery
  unfolding validate_selection_ownership
  selection_from h is = ground (
    arith,
    eq_iff t.selection_class SelectionClass.system_recovery,
    eq_iff t.selection_class SelectionClass.program_recovery,
    eq_iff t.selection_class SelectionClass.extension_recovery,
    eq_iff t.class EventClass.recovery,
  )

  -- The capabilities that the transition states and those that the kernel finds in its effect.
  capabilities_declared :
      check_effects t ≡ ok tt
      → controllable t ≡ true
      → All (λ c. In c t.declared_capabilities) (required_capabilities t)
  unfolding check_effects required_capabilities
  capabilities_declared h own =
      let (required, made, h) = >>=-eq-ok (normalize_capabilities _ t.required_capabilities) _ h in
      let (declared, normal, h) =
        >>=-eq-ok (normalize_capabilities _ t.declared_capabilities) _ h in
      let (found, _) =
        refuse_if-then (controllable t && not (undeclared_capability t required declared == "")) _ _
          h in
      let nothing : undeclared_capability t required declared ≡ "" =
        ground (arith, found, own, eq_iff (undeclared_capability t required declared) "") in
      let all =
        missing-none (union_capabilities (required ∷ kernel_effect_capabilities t ∷ []))
          (new_capability_set declared) nothing
          (union-full (required ∷ kernel_effect_capabilities t ∷ [])) in
      All-of_In (λ c. In c t.declared_capabilities) _
        (λ c m.
          let (of, valid) =
            union-cases t.required_capabilities (kernel_effect_capabilities t) c m in
          let among : In c required ⊎ In c (kernel_effect_capabilities t) = elim of [
            | inl k ↦ inl (In-normalize _ t.required_capabilities c made k)
            | inr k ↦ inr k
          ] in
          normalize-In _ t.declared_capabilities c normal (
            new_set-In declared c (
              All-In (λ v. In v (new_capability_set declared)) _ all
                (union-In required (kernel_effect_capabilities t) c among valid))))

taken : (b : Bool) (x y : Check) → b ≡ true → (if b then x else y) ≡ ok tt → x ≡ ok tt
taken true x y e h = h
taken false x y e h = cc

passed : (b : Bool) (x y : Check) → b ≡ false → (if b then x else y) ≡ ok tt → y ≡ ok tt
passed true x y e h = cc
passed false x y e h = h

refuse_facets-All :
    (refused : StateFacet → Bool) (e : StateFacet → Error) (facets : List StateFacet)
    → refuse_facets refused e facets ≡ ok tt
    → All (λ f. refused f ≡ false) facets
refuse_facets-All refused e [] h = tt
refuse_facets-All refused e (f ∷ facets) h =
    let (first, h) = refuse_if-then (refused f) _ _ h in
    (first, refuse_facets-All refused e facets h)

-- What the origin of a controllable transition lets it own.
abbrev pub OwnsOnly : Transition → Type 0
OwnsOnly t =
    (f : StateFacet)
    → In f t.owned_facets
    → ((t.origin.kind ≡ OriginKind.control_program)
        → (f ≢ StateFacet.installation) × (f ≢ StateFacet.program))
      × ((t.origin.kind ≡ OriginKind.extension) → f ≡ StateFacet.control)

module _ (t : Transition) where
  require_writes-eq-ok :
      (r : Result (List StateFacet)) {writes : List StateFacet}
      → require_writes t.id r ≡ ok writes
      → r ≡ ok writes
  require_writes-eq-ok (err e) h = cc
  require_writes-eq-ok (ok facets) h = let (_, h) = refuse_if-then (is_empty facets) _ _ h in h

  normal_writes :
      (name : String) (facets : List StateFacet) {writes : List StateFacet}
      → normalize_state_facets name facets ≡ ok writes
      → sort str_ltb facets ≡ writes
  unfolding normalize_state_facets
  normal_writes name facets h =
      let (_, h) = check-then (check_state_facets name none (sort str_ltb facets)) _ h in
      ok-injective _ _ h

  origin_program :
      (writes : List StateFacet)
      → check_origin t writes ≡ ok tt
      → t.origin.kind ≡ OriginKind.control_program
      → All (λ f. (f == StateFacet.installation || f == StateFacet.program) ≡ false) writes
  unfolding check_origin
  origin_program writes h is = refuse_facets-All _ _ writes (
      taken (t.origin.kind == OriginKind.control_program) _ _
        (ap (λ k. k == OriginKind.control_program) is) h)

  origin_extension :
      (writes : List StateFacet)
      → check_origin t writes ≡ ok tt
      → t.origin.kind ≡ OriginKind.extension
      → All (λ f. not (f == StateFacet.control) ≡ false) writes
  unfolding check_origin
  origin_extension writes h is =
      let h =
        passed (t.origin.kind == OriginKind.control_program) _ _
          (ap (λ k. k == OriginKind.control_program) is) h in
      refuse_facets-All _ _ writes (
        taken (t.origin.kind == OriginKind.extension) _ _ (ap (λ k. k == OriginKind.extension) is)
          h)

  owns_only :
      controllable t ≡ true
      → (policy : StateFacetPolicy) → durable_state_facet_policy t ≡ ok policy
      → OwnsOnly t
  unfolding durable_state_facet_policy owned_policy
  owns_only own policy h f m =
      let observed : (t.class == EventClass.observed_external) ≡ false = ground arith in
      let h : owned_policy t ≡ ok policy =
        subst
          (λ b.
            (if b then ok (record { reads = all_state_facets; writes = [] }) else owned_policy t)
            ≡ ok policy)
          observed h in
      let (writes, made, h) = >>=-eq-ok (require_writes t.id _) _ h in
      let (_, h) = refuse_if-then (not (contains writes StateFacet.control)) _ _ h in
      let (origin, _) = check-then (check_origin t writes) _ h in
      let at : In f writes =
        subst (In f) (normal_writes _ t.owned_facets (require_writes-eq-ok _ made))
          (In-of_sort str_ltb f t.owned_facets m) in
      (
        λ is.
            let free = All-In _ writes (origin_program writes origin is) at in
            (
              λ e. ground (arith, free, eq_iff f StateFacet.installation),
              λ e. ground (arith, free, eq_iff f StateFacet.program),
            ),
        λ is.
            let free = All-In _ writes (origin_extension writes origin is) at in
            ground (arith, free, eq_iff f StateFacet.control),
      )

-- What a valid transition declares.
pub record IsDeclared (t : Transition) : Type 0 where
  pub observed :
      (t.class ≡ EventClass.observed_external)
      ↔ (t.selection_class ≡ SelectionClass.observed_external)
  pub recovery : (t.class ≡ EventClass.recovery) ↔ IsRecoverySelection t
  pub owned : controllable t ≡ true → OwnsOnly t
  pub capabilities :
      controllable t ≡ true → All (λ c. In c t.declared_capabilities) (required_capabilities t)

observed_iff :
    (t : Transition)
    → (t.class == EventClass.observed_external
        && not (t.selection_class == SelectionClass.observed_external))
      ≡ false
    → (not (t.class == EventClass.observed_external)
        && t.selection_class == SelectionClass.observed_external)
      ≡ false
    → (t.class ≡ EventClass.observed_external)
      ↔ (t.selection_class ≡ SelectionClass.observed_external)
observed_iff t h k = (
  λ e. ground (
    arith,
    eq_iff t.class EventClass.observed_external,
    eq_iff t.selection_class SelectionClass.observed_external,
  ),
  λ e. ground (
    arith,
    eq_iff t.class EventClass.observed_external,
    eq_iff t.selection_class SelectionClass.observed_external,
  ),
)

-- A transition that validateTransition accepts is observed exactly if it is selected as such, is a
-- recovery exactly if it is selected as its origin's recovery, and, if it is controllable, owns only
-- the state that its origin may own and declares every capability that RequiredCapabilities finds.
pub validate_transition-IsDeclared :
    (library : Library) (t : Transition) → validate_transition library t ≡ ok tt → IsDeclared t
unfolding validate_transition check_classes
validate_transition-IsDeclared library t h =
    let (classes, h) = check-then (check_classes t) _ h in
    let (_, h) = check-then (check_scope t) _ h in
    let (effects, _) = check-then (check_effects t) _ h in
    let (_, c) = refuse_if-then (t.id == "" || not (semantic_id t.id)) _ _ classes in
    let (_, c) = refuse_if-then (not (EventClass.is_valid t.class)) _ _ c in
    let (_, c) = refuse_if-then _ _ _ c in
    let (policy, decided, c) = >>=-eq-ok (durable_state_facet_policy t) _ c in
    let (_, c) = check-then (validate_state_effect t) _ c in
    let (_, c) = refuse_if-then (not (SelectionClass.is_valid t.selection_class)) _ _ c in
    let (seen, c) = refuse_if-then _ _ _ c in
    let (unseen, ownership) = refuse_if-then _ _ _ c in
    record {
      observed = observed_iff t seen unseen;
      recovery = (selection_to t ownership, selection_from t ownership);
      owned = λ own. owns_only t own policy decided;
      capabilities = capabilities_declared t effects;
    }
