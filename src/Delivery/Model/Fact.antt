-- ===== src/Delivery/Model/Fact.antt =====
-- boatstack/internal/softwaredelivery/model/fact.go. `time.Time` is a number of nanoseconds with 0
-- for the zero time.
use boatstack.Base.{ℕ, suc, String, Bool, not, ◌&&◌, ◌||◌, ◌==◌, List, [], ◌∷◌, map, is_empty}
use boatstack.Base.Int.{ℤ}
use boatstack.Kernel.Error.{Check, says, quoted, counted, ok, ◌>>◌, refuse_if}
use boatstack.Delivery.Model.FactStatus
use boatstack.Delivery.Model.FactStatus.{FactStatus}

pub record Evidence : Type 0 where
  pub source : String
  pub fingerprint : String
  pub revision : String
  pub observed_at : ℕ

pub record Fact (T : Type 0) : Type 0 where
  pub status : FactStatus
  pub value : T
  pub evidence : List Evidence
  pub detail : String

-- Known
abbrev pub known : {T : Type 0} → T → Evidence → Fact T
known value evidence = record {
  status = FactStatus.known;
  value = value;
  evidence = evidence ∷ [];
  detail = "";
}

-- Unknown, and Absent where the status is that; Go's zero value of `T` is an argument.
abbrev pub unknown : {T : Type 0} → T → FactStatus → String → List Evidence → Fact T
unknown zero_value status detail evidence = record {
  status = status;
  value = zero_value;
  evidence = evidence;
  detail = detail;
}

abbrev pub absent : {T : Type 0} → T → String → List Evidence → Fact T
absent zero_value detail evidence = unknown zero_value FactStatus.absent detail evidence

-- `fact.Status == FactKnown`
abbrev pub is_known : {T : Type 0} → Fact T → Bool
is_known fact = fact.status == FactStatus.known

-- the loop of Fact.Validate, from an index on
unfoldable pub check_evidence : String → ℕ → List Evidence → Check
check_evidence name index [] = ok tt
check_evidence name index (evidence ∷ rest) = do
  refuse_if (evidence.source == "" || evidence.fingerprint == "") (
      says "%s: evidence %d requires source and fingerprint"
        (quoted name ∷ counted (ℤ.pos index) ∷ []))
  check_evidence name (suc index) rest

-- Fact.Validate
unfoldable pub validate_fact : {T : Type 0} → String → Fact T → Check
unfolding check_evidence
validate_fact name fact = do
  refuse_if (not (FactStatus.is_valid fact.status))
      (says "%s: invalid or missing fact status %q" (quoted name ∷ quoted fact.status ∷ []))
  refuse_if (is_known fact && is_empty fact.evidence)
      (says "%s: known controlling fact has no evidence" (quoted name ∷ []))
  check_evidence name 0 fact.evidence

-- `fact.Evidence[index].ObservedAt = time.Time{}`
abbrev pub without_time : Evidence → Evidence
without_time e = record e { observed_at = 0 }

-- zeroEvidenceTimes of state.go
abbrev pub zero_evidence_times : {T : Type 0} → Fact T → Fact T
zero_evidence_times fact = record fact { evidence = map without_time fact.evidence }
