-- ===== src/Delivery/Supervisor/Guard/Safety.antt =====
-- What the guard of boatstack/internal/softwaredelivery/supervisor/guard.go lets pass, alone and on
-- the intents that classify.go makes of commands.
use boatstack.Base.{
  some-injective, String, Bool, true, false, not, ◌||◌, ◌==◌, eq_iff, Option, none, some, List, [],
  ◌∷◌, In, inl, inr, ◌⊎◌, ◌≡◌, ◌≢◌, ◌↔◌, refl, sym, ◌∙◌, ap, arith, Bool-cases,
}
use boatstack.Kernel.Error.{Check, ok, err, succeeds}
use boatstack.Delivery.Ports.{Library}
use boatstack.Delivery.Model.Fact.{is_known}
use boatstack.Delivery.Model.Facet.{join}
use boatstack.Delivery.Model.Phase
use boatstack.Delivery.Model.Engagement
use boatstack.Delivery.Model.Observation.{Snapshot}
use boatstack.Delivery.Catalog.Transition.{Transition}
use boatstack.Delivery.Catalog.Registry.{Registry, managed_transition}
use boatstack.Delivery.Supervisor.IntentClass
use boatstack.Delivery.Supervisor.Guard.{CommandIntent, guard, guard_bypass, validate_intent}
use boatstack.Delivery.Supervisor.Classify.{
  is_data_only, classify_command_intent, destructive_command_patterns, first_match, CommandPattern,
}

-- What makes a managed effect inert: the engagement is known, neither a command nor active, and the
-- phase is not that of recovery.
pub record IsDormant (s : Snapshot) : Type 0 where
  pub is_engagement_known : is_known s.engagement ≡ true
  pub is_no_command : s.engagement.value ≢ Engagement.command
  pub is_not_active : s.engagement.value ≢ Engagement.active
  pub is_not_recovering : s.phase.value ≢ Phase.recovery

bypass_iff :
    (s : Snapshot) (intent : CommandIntent) (o : Option Transition)
    → ((guard_bypass s intent o).allowed ≡ true) ↔ ((o ≡ none) ⊎ IsDormant s)
bypass_iff s intent none = (λ h. inl refl, λ h. refl)
bypass_iff s intent (some t) = (
  λ h. inr (record {
    is_engagement_known = ground arith;
    is_no_command = λ e. ground (arith, eq_iff s.engagement.value Engagement.command);
    is_not_active = λ e. ground (arith, eq_iff s.engagement.value Engagement.active);
    is_not_recovering = λ e. ground (arith, eq_iff s.phase.value Phase.recovery);
  }),
  λ h. elim h [
    | inl e ↦ cc
    | inr d ↦ ground (
      arith,
      d.is_engagement_known,
      d.is_no_command,
      d.is_not_active,
      d.is_not_recovering,
      eq_iff s.engagement.value Engagement.command,
      eq_iff s.engagement.value Engagement.active,
      eq_iff s.phase.value Phase.recovery,
    )
  ],
)

succeeds_iff : (c : Check) → (succeeds c ≡ true) ↔ (c ≡ ok tt)
succeeds_iff (ok _) = (λ h. refl, λ h. refl)
succeeds_iff (err e) = (λ h. cc, λ h. cc)

-- A valid intent has one of three classes.
valid_class :
    (i : CommandIntent)
    → validate_intent i ≡ ok tt
    → (i.class ≡ IntentClass.ordinary)
      ⊎ (i.class ≡ IntentClass.destructive)
      ⊎ (i.class ≡ IntentClass.managed_bypass)
unfolding validate_intent
valid_class i h = ground (
  arith,
  eq_iff i.class IntentClass.ordinary,
  eq_iff i.class IntentClass.destructive,
  eq_iff i.class IntentClass.managed_bypass,
)

-- The guard allows a command exactly if its intent and the snapshot are valid, and it is ordinary or
-- it would bypass a managed effect that no transition of the program manages or that is dormant.
pub guard-allowed_iff :
    (registry : Registry) (s : Snapshot) (intent : CommandIntent)
    → ((guard registry s intent).allowed ≡ true) ↔ (
        (validate_intent intent ≡ ok tt)
        × (s.fingerprint ≢ "")
        × ((intent.class ≡ IntentClass.ordinary)
            ⊎ ((intent.class ≡ IntentClass.managed_bypass)
                × ((managed_transition registry intent.operation ≡ none) ⊎ IsDormant s))))
unfolding guard
guard-allowed_iff registry s intent =
    let bypass = bypass_iff s intent (managed_transition registry intent.operation) in
    let ordinary = eq_iff intent.class IntentClass.ordinary in
    let destructive = eq_iff intent.class IntentClass.destructive in
    let printed = eq_iff s.fingerprint "" in
    let valid = succeeds_iff (validate_intent intent) in
    (
      λ h.
          let checked : validate_intent intent ≡ ok tt = ground (arith, valid) in
          (
            checked,
            λ e. ground (arith, printed),
            ground (arith, bypass, ordinary, destructive, valid_class intent checked),
          ),
      λ h. elim h.2 [
        | inl is ↦ rw (valid.1 h.0, is) (ground (arith, h.1, printed))
        | inr (is, free) ↦
            let full : (s.fingerprint == "") ≡ false = ground (arith, h.1, printed) in
            let harmless : (intent.class == IntentClass.destructive) ≡ false =
              ap (λ c. c == IntentClass.destructive) is in
            let unusual : (intent.class == IntentClass.ordinary) ≡ false =
              ap (λ c. c == IntentClass.ordinary) is in
            rw (valid.1 h.0, full, harmless, unusual) (bypass.1 free)
      ],
    )

-- Whatever the registry and the snapshot are, the guard never allows an intent of class destructive.
destructive_refused :
    (registry : Registry) (s : Snapshot) (intent : CommandIntent)
    → intent.class ≡ IntentClass.destructive
    → (guard registry s intent).allowed ≡ false
unfolding guard
destructive_refused registry s intent is =
    elim (Bool-cases (not (succeeds (validate_intent intent)) || s.fingerprint == "")) [
      | inl e ↦ rw e refl
      | inr e ↦ rw (e, ap (λ c. c == IntentClass.destructive) is) refl
    ]

In-first_match :
    (matches : String → Bool) (patterns : List CommandPattern) (operation pattern : String)
    → In (operation, pattern) patterns
    → matches pattern ≡ true
    → (found : String) × (first_match matches patterns ≡ some found)
In-first_match matches [] operation pattern m h = absurd m
In-first_match matches ((o, p) ∷ patterns) operation pattern m h = elim (Bool-cases (matches p)) [
  | inl e ↦ (o, rw e refl)
  | inr e ↦ elim m [
    | inl same ↦ absurd (ground (arith, ap (λ (x : CommandPattern). matches x.1) same))
    | inr m ↦
        let (found, k) = In-first_match matches patterns operation pattern m h in (found, rw e k)
  ]
]

-- What the loop over the patterns returns is the operation of a pattern that matches.
first_match-In :
    (matches : String → Bool) (patterns : List CommandPattern) (found : String)
    → first_match matches patterns ≡ some found
    → (p : CommandPattern) × In p patterns × (matches p.1 ≡ true) × (p.0 ≡ found)
first_match-In matches [] found h = cc
first_match-In matches ((o, p) ∷ patterns) found h = elim (Bool-cases (matches p)) [
  | inl e ↦ ((o, p), inl refl, e, some-injective o found (sym (first_hit e) ∙ h))
  | inr e ↦
      let (q, m, k, named) = first_match-In matches patterns found (sym (first_miss e) ∙ h) in
      (q, inr m, k, named)
]
  where
    first_hit : matches p ≡ true → first_match matches ((o, p) ∷ patterns) ≡ some o
    first_hit e = rw e refl

    first_miss :
        matches p ≡ false → first_match matches ((o, p) ∷ patterns) ≡ first_match matches patterns
    first_miss e = rw e refl

-- A command that matches one of the destructive patterns, and is not a data-only one without shell
-- syntax, is classified as destructive, with the operation of one of the patterns that it matches
-- and the fingerprint of the command; and the guard then refuses it in every state.
pub classified-guard :
    (library : Library) (registry : Registry) (s : Snapshot) (command operation pattern : String)
    → In (operation, pattern) destructive_command_patterns
    → library.match_string pattern (join " " (library.fields command)) ≡ true
    → is_data_only library command ≡ false
    → ((classify_command_intent library command).class ≡ IntentClass.destructive)
      × ((classify_command_intent library command).fingerprint ≡ library.sha256_hex command)
      × ((matched : CommandPattern) × In matched destructive_command_patterns
          × (library.match_string matched.1 (join " " (library.fields command)) ≡ true)
          × ((classify_command_intent library command).operation ≡ matched.0))
      × ((guard registry s (classify_command_intent library command)).allowed ≡ false)
unfolding classify_command_intent
classified-guard library registry s command operation pattern m h other =
    let matches : String → Bool = λ p. library.match_string p (join " " (library.fields command)) in
    let (found, k) = In-first_match matches destructive_command_patterns operation pattern m h in
    let (matched, at, matches_it, named) =
      first_match-In matches destructive_command_patterns found k in
    let is : (classify_command_intent library command).class ≡ IntentClass.destructive =
      rw (other, k) refl in
    (
      is,
      rw (other, k) refl,
      (matched, at, matches_it, rw (other, k) (sym named)),
      destructive_refused registry s (classify_command_intent library command) is,
    )
