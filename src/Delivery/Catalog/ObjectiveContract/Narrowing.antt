-- ===== src/Delivery/Catalog/ObjectiveContract/Narrowing.antt =====
-- What an extension does to the objective contracts of
-- boatstack/internal/softwaredelivery/catalog/objective_contract.go.
use boatstack.Base.{
  some-injective, is_some, Bool, true, false, not, ◌||◌, ◌==◌, some, List, [], ◌∷◌, ◌++◌, inl, inr,
  ◌≡◌, refl, sym, subst, arith, Bool-cases, Option-cases, all_of, is_empty, if◌then◌else◌,
}
use boatstack.Kernel.Error.{ok, >>=-eq-ok, check-then, refuse_if-then, ok-injective}
use boatstack.Delivery.Model.Fact.{is_known}
use boatstack.Delivery.Model.Facet.{lookup}
use boatstack.Delivery.Model.Objective.{TargetId, is_valid_target, Objective, objective_eq}
use boatstack.Delivery.Model.Observation.{Snapshot}
use boatstack.Delivery.Catalog.Transition.{FacetCondition}
use boatstack.Delivery.Catalog.Evaluation.{matches}
use boatstack.Delivery.Catalog.ObjectiveContract.{
  Extension, ObjectiveContract, ObjectiveContracts, check_conditions, check_supported,
  compile_contract, compile_contracts, contract_matches, contracts_match, extended, extension_of,
  new_objective_contracts, with_trusted_class,
}

-- Each test that all conditions of `c` pass is passed by those of `d`.
abbrev Narrows : ObjectiveContract → ObjectiveContract → Type 0
Narrows d c =
    (p : FacetCondition → Bool) → all_of p c.conditions ≡ true → all_of p d.conditions ≡ true

-- Each contract of `cs` narrows the one of `ds` for the same target.
abbrev AllNarrow : ObjectiveContracts → ObjectiveContracts → Type 0
AllNarrow ds cs =
    (target : TargetId) (c : ObjectiveContract)
    → lookup cs target ≡ some c
    → (d : ObjectiveContract) × (lookup ds target ≡ some d) × Narrows d c

all_of-front :
    (p : FacetCondition → Bool) (xs ys : List FacetCondition)
    → all_of p (xs ++ ys) ≡ true
    → all_of p (xs ++ []) ≡ true
all_of-front p [] ys h = refl
all_of-front p (x ∷ xs) ys h = ground (arith, all_of-front p xs ys)

extended-Narrows :
    (extension : Extension) (base : ObjectiveContract)
    → Narrows (extended [] base) (extended extension base)
extended-Narrows extension base p h =
    all_of-front p base.conditions (extension_of extension base.target_id) h

compile_contract-eq-ok :
    (extension : Extension) (contracts : ObjectiveContracts) (base c : ObjectiveContract)
    → compile_contract extension contracts base ≡ ok c
    → extended extension (with_trusted_class base) ≡ c
unfolding compile_contract
compile_contract-eq-ok extension contracts base c h =
    let (_, h) =
      refuse_if-then (not (is_valid_target base.target_id) || is_empty base.conditions) _ _ h in
    let (_, h) =
      refuse_if-then (not (is_valid_target (with_trusted_class base).trusted_class)) _ _ h in
    let (_, h) = refuse_if-then (is_some (lookup contracts base.target_id)) _ _ h in
    let (_, h) =
      check-then (check_conditions base.target_id (extended extension base).conditions) _ h in
    ok-injective _ _ h

AllNarrow-cons :
    (target : TargetId) (d c : ObjectiveContract) (ds cs : ObjectiveContracts)
    → Narrows d c
    → AllNarrow ds cs
    → AllNarrow ((target, d) ∷ ds) ((target, c) ∷ cs)
AllNarrow-cons target d c ds cs one all t x h = elim (Bool-cases (target == t)) [
  | inl e ↦
      let same : c ≡ x = some-injective c x (ground arith) in
      (
        d,
        rw e refl,
        λ p k. one p (subst (λ (y : ObjectiveContract). all_of p y.conditions ≡ true) (sym same) k),
      )
  | inr e ↦ let (y, found, narrow) = all t x (ground arith) in (y, rw e found, narrow)
]

compile_contracts-AllNarrow :
    (extension : Extension) (bases : List ObjectiveContract)
    (ds cs base_only extended_too : ObjectiveContracts)
    → AllNarrow ds cs
    → compile_contracts [] ds bases ≡ ok base_only
    → compile_contracts extension cs bases ≡ ok extended_too
    → AllNarrow base_only extended_too
unfolding compile_contracts
compile_contracts-AllNarrow extension [] ds cs base_only extended_too all h k =
    subst (λ x. AllNarrow x extended_too) (ok-injective _ _ h)
      (subst (AllNarrow ds) (ok-injective _ _ k) all)
compile_contracts-AllNarrow extension (base ∷ bases) ds cs base_only extended_too all h k =
    let (d, made_d, h) = >>=-eq-ok (compile_contract [] ds base) _ h in
    let (c, made_c, k) = >>=-eq-ok (compile_contract extension cs base) _ k in
    let is_d = compile_contract-eq-ok [] ds base d made_d in
    let is_c = compile_contract-eq-ok extension cs base c made_c in
    let narrow : Narrows d c =
      subst (λ x. Narrows x c) is_d
        (subst (Narrows (extended [] (with_trusted_class base))) is_c
          (extended-Narrows extension (with_trusted_class base))) in
    compile_contracts-AllNarrow extension bases ((base.target_id, d) ∷ ds)
      ((base.target_id, c) ∷ cs) base_only extended_too
      (AllNarrow-cons base.target_id d c ds cs narrow all) h k

contract_matches-Narrow :
    (s : Snapshot) (cs ds : ObjectiveContracts) (target : TargetId)
    → AllNarrow ds cs
    → contract_matches s (lookup cs target) ≡ true
    → contract_matches s (lookup ds target) ≡ true
contract_matches-Narrow s cs ds target all h = elim (Option-cases (lookup cs target)) [
  | inl e ↦ absurd (ground arith)
  | inr (c, e) ↦
      let (d, found, narrow) = all target c e in
      rw found (narrow (λ x. matches x s) (subst (λ o. contract_matches s o ≡ true) e h))
]

-- An extension only narrows the objectives: where NewObjectiveContracts accepts a base both with an
-- extension and without one, a snapshot that matches an objective by the extended contracts matches
-- it by those of the base.
pub extension_narrows :
    (bases : List ObjectiveContract) (extension : Extension)
    (base_only extended_too : ObjectiveContracts) (s : Snapshot) (g : Objective)
    → new_objective_contracts bases [] ≡ ok base_only
    → new_objective_contracts bases extension ≡ ok extended_too
    → contracts_match extended_too s g ≡ true
    → contracts_match base_only s g ≡ true
unfolding new_objective_contracts contracts_match
extension_narrows bases extension base_only extended_too s g h k m =
    let (ds, h, rest) = >>=-eq-ok (compile_contracts [] [] bases) _ h in
    let (_, rest) = check-then (check_supported ds []) _ rest in
    let (cs, k, more) = >>=-eq-ok (compile_contracts extension [] bases) _ k in
    let (_, more) = check-then (check_supported cs extension) _ more in
    let all : AllNarrow base_only extended_too =
      subst (λ x. AllNarrow x extended_too) (ok-injective _ _ rest)
        (subst (AllNarrow ds) (ok-injective _ _ more)
          (compile_contracts-AllNarrow extension bases [] [] ds cs (λ t c e. cc) h k)) in
    elim (Bool-cases (not (is_known s.objective) || not (objective_eq s.objective.value g))) [
      | inl e ↦ absurd (ground (arith))
      | inr e ↦ rw e (
          contract_matches-Narrow s extended_too base_only g.target_id all (
            subst
              (λ b.
                (if b then false else contract_matches s (lookup extended_too g.target_id)) ≡ true)
              e m))
    ]
