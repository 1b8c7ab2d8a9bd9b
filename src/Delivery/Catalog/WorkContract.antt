-- ===== src/Delivery/Catalog/WorkContract.antt =====
-- validateWorkContract of boatstack/internal/softwaredelivery/catalog/transition.go.
pub mod Bounds
use boatstack.Base.{
  is_some, String, len, Bool, true, false, not, ◌&&◌, ◌||◌, ◌==◌, eqb, Option, none, some, List, [],
  ◌∷◌, contains, is_empty, if◌then◌else◌,
}
use boatstack.Base.Int.{ℤ, ltb_ℤ}
use boatstack.Kernel.Error.{Check, says, quoted, ok, ◌>>◌, refuse_if}
use boatstack.Delivery.Ports.{Library}
use boatstack.Delivery.Catalog.SemanticId.{semantic_id}
use boatstack.Delivery.Catalog.Work.{
  ParameterProducer, WorkContract, WorkInput, WorkOutput, source_entry_input, source_work_output,
}
use boatstack.Delivery.Catalog.Transition.{Transition}
use boatstack.Delivery.Catalog.Evaluation.{controllable}
use boatstack.Delivery.Catalog.StateEffectClosure.{refuse_of}

-- what the two kinds of producer leave out alike
abbrev names_nothing_else : ParameterProducer → Bool
names_nothing_else p =
    p.facet == ""
    && not (is_some p.available_when)
    && p.transition == ""
    && p.field == ""
    && not (is_some p.binding)
    && not (is_some p.request)

-- `validProducer`
abbrev valid_producer : ParameterProducer → Bool
valid_producer p =
    (p.kind == source_entry_input
      && semantic_id p.input
      && names_nothing_else p
      && p.work == ""
      && p.output == "")
    || (p.kind == source_work_output
        && semantic_id p.work
        && semantic_id p.output
        && p.input == ""
        && names_nothing_else p)

-- the loop over the inputs
unfoldable pub check_inputs : Transition → List String → List WorkInput → Check
check_inputs t seen [] = ok tt
check_inputs t seen (input ∷ inputs) = do
  refuse_of t
      (not (semantic_id input.id) || not (valid_producer input.producer) || contains seen input.id)
      "%s: foreground work inputs must be semantic and unique"
  check_inputs t (input.id ∷ seen) inputs

-- `16 << 20`
abbrev pub largest_output : ℤ
largest_output = ℤ.pos 16777216

abbrev media_types : List String
media_types = "text/markdown" ∷ "text/plain" ∷ "application/json" ∷ []

abbrev has_schema : WorkOutput → Bool
has_schema output =
    not (output.schema_path == "")
    || not (output.schema_sha256 == "")
    || not (output.schema_content == "")

-- the condition of "must be bounded and unique"
abbrev pub is_unbounded : List String → List String → WorkOutput → Bool
is_unbounded ids paths output =
    not (semantic_id output.id)
    || output.path == ""
    || contains ids output.id
    || contains paths output.path
    || ltb_ℤ output.max_bytes (ℤ.pos 1)
    || ltb_ℤ largest_output output.max_bytes

-- one round of the loop over the outputs, with the identities and paths seen before
unfoldable pub check_output : Transition → List String → List String → WorkOutput → Check
check_output t ids paths output = do
  refuse_of t (is_unbounded ids paths output)
      "%s: foreground work outputs must be bounded and unique"
  refuse_if (not (contains media_types output.media_type)) (
      says "%s: foreground work output %q has unsupported media type"
        (quoted t.id ∷ quoted output.id ∷ []))
  refuse_if
      (has_schema output
        && (output.schema_path == ""
            || not (eqb (len output.schema_sha256) 64)
            || output.schema_content == ""
            || not (output.media_type == "application/json")))
      (says "%s: foreground work output %q has invalid schema binding"
        (quoted t.id ∷ quoted output.id ∷ []))

-- the loop over the outputs
unfoldable pub check_outputs : Transition → List String → List String → List WorkOutput → Check
unfolding check_output
check_outputs t ids paths [] = ok tt
check_outputs t ids paths (output ∷ outputs) = do
  check_output t ids paths output
  check_outputs t (output.id ∷ ids) (output.path ∷ paths) outputs

-- `err != nil || fingerprint != work.Fingerprint`
abbrev pub wrong_fingerprint : Library → WorkContract → Option String → Bool
wrong_fingerprint library work none = true
wrong_fingerprint library work (some encoded) = not (library.sha256_hex encoded == work.fingerprint)

-- the condition of "is incomplete"
abbrev pub is_incomplete : Library → Transition → WorkContract → Bool
is_incomplete library t work =
    not (controllable t)
    || work.id == ""
    || not (semantic_id work.id)
    || not (eqb (len work.fingerprint) 64)
    || work.instruction_path == ""
    || not (eqb (len work.instruction_sha256) 64)
    || library.trim_space work.instruction_content == ""
    || is_empty work.outputs

-- validateWorkContract of work that is there
unfoldable pub check_work : Library → Transition → WorkContract → Check
unfolding check_inputs check_outputs
check_work library t work = do
  refuse_of t (is_incomplete library t work) "%s: foreground work contract is incomplete"
  refuse_of t (wrong_fingerprint library work (library.marshal_work work))
      "%s: foreground work contract fingerprint is invalid"
  check_inputs t [] work.inputs
  check_outputs t [] [] work.outputs

abbrev pub check_optional_work : Library → Transition → Option WorkContract → Check
check_optional_work library t none = ok tt
check_optional_work library t (some work) = check_work library t work

-- validateWorkContract
unfoldable pub validate_work_contract : Library → Transition → Check
unfolding check_work
validate_work_contract library t = check_optional_work library t t.work
