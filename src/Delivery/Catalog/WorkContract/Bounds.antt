-- ===== src/Delivery/Catalog/WorkContract/Bounds.antt =====
-- The bounds of the outputs of foreground work, boatstack/internal/softwaredelivery/catalog/transition.go.
use boatstack.Base.{
  ℕ, String, false, some, List, [], ◌∷◌, In, ◌≡◌, ◌≤◌, refl, subst, arith, All, In→contains,
}
use boatstack.Base.Int.{ℤ, ltb_ℤ}
use boatstack.Kernel.Error.{ok, check-then, refuse_if-then}
use boatstack.Delivery.Ports.{Library}
use boatstack.Delivery.Catalog.Work.{WorkContract, WorkOutput}
use boatstack.Delivery.Catalog.Transition.{Transition}
use boatstack.Delivery.Catalog.WorkContract.{
  check_inputs, check_optional_work, is_incomplete, is_unbounded, wrong_fingerprint, check_output,
  check_outputs, check_work, largest_output, validate_work_contract,
}

-- At least one byte, and at most 16 MiB.
abbrev pub IsBounded : WorkOutput → Type 0
IsBounded output = (n : ℕ) × (output.max_bytes ≡ ℤ.pos n) × (1 ≤ n) × (n ≤ 16777216)

-- The identities and the paths of the outputs are new.
abbrev pub AreUnique : List String → List String → List WorkOutput → Type 0
AreUnique ids paths [] = Unit
AreUnique ids paths (output ∷ outputs) =
    ¬ (In output.id ids)
    × ¬ (In output.path paths)
    × AreUnique (output.id ∷ ids) (output.path ∷ paths) outputs

bounded :
    (z : ℤ)
    → ltb_ℤ z (ℤ.pos 1) ≡ false
    → ltb_ℤ largest_output z ≡ false
    → (n : ℕ) × (z ≡ ℤ.pos n) × (1 ≤ n) × (n ≤ 16777216)
bounded (ℤ.pos n) h k = (n, refl, ground arith, ground arith)
bounded (ℤ.negsuc n) h k = absurd (ground arith)

output-eq-ok :
    (t : Transition) (ids paths : List String) (output : WorkOutput)
    → check_output t ids paths output ≡ ok tt
    → IsBounded output × ¬ (In output.id ids) × ¬ (In output.path paths)
unfolding check_output
output-eq-ok t ids paths output h =
    let (first, _) = refuse_if-then (is_unbounded ids paths output) _ _ h in
    (
      bounded output.max_bytes (ground (arith, first)) (ground (arith, first)),
      λ m. ground (arith, first, In→contains ids output.id m),
      λ m. ground (arith, first, In→contains paths output.path m),
    )

outputs-eq-ok :
    (t : Transition) (ids paths : List String) (outputs : List WorkOutput)
    → check_outputs t ids paths outputs ≡ ok tt
    → All IsBounded outputs × AreUnique ids paths outputs
unfolding check_outputs
outputs-eq-ok t ids paths [] h = (tt, tt)
outputs-eq-ok t ids paths (output ∷ outputs) h =
    let (first, h) = check-then (check_output t ids paths output) _ h in
    let (size, id, path) = output-eq-ok t ids paths output first in
    let (sizes, rest) = outputs-eq-ok t (output.id ∷ ids) (output.path ∷ paths) outputs h in
    ((size, sizes), (id, path, rest))

work-eq-ok :
    (library : Library) (t : Transition) (work : WorkContract)
    → check_work library t work ≡ ok tt
    → All IsBounded work.outputs × AreUnique [] [] work.outputs
unfolding check_work
work-eq-ok library t work h =
    let (_, h) = refuse_if-then (is_incomplete library t work) _ _ h in
    let (_, h) =
      refuse_if-then (wrong_fingerprint library work (library.marshal_work work)) _ _ h in
    let (_, h) = check-then (check_inputs t [] work.inputs) _ h in
    outputs-eq-ok t [] [] work.outputs h

-- The outputs of a work contract that validateWorkContract accepts are of 1 byte to 16 MiB, with
-- different identities and different paths.
pub validate_work_contract-IsBounded :
    (library : Library) (t : Transition) (work : WorkContract)
    → t.work ≡ some work
    → validate_work_contract library t ≡ ok tt
    → All IsBounded work.outputs × AreUnique [] [] work.outputs
unfolding validate_work_contract
validate_work_contract-IsBounded library t work e h =
    work-eq-ok library t work (subst (λ o. check_optional_work library t o ≡ ok tt) e h)
