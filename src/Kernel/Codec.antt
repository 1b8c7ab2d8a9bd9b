-- ===== src/Kernel/Codec.antt =====
-- `contentHash` of boatstack/kernel/types.go. The JSON encoder and SHA-256 are Go's, and a parameter
-- here: what `json.Marshal` writes for each kind of value that the kernel hashes (`none` where it
-- returns an error), `json.Valid`, and the hexadecimal digest of a text.
use boatstack.Base.{ℕ, String, Bool, Option, List, ◌≡◌, some, none}
use boatstack.Kernel.Types.{ObjectiveBinding, AuthorityReceipt, Program, Prescription, Receipt}
use boatstack.Kernel.Error.{Error, err, Result, ok, marshal_failed, ◌>>=◌, from_option}

pub record Codec : Type 0 where
  pub json_valid : String → Bool
  pub sha256_hex : String → String
  -- the anonymous struct of an objective's id, revision and reference
  pub marshal_objective : String → ℕ → String → Option String
  pub marshal_value : String → Option String
  pub marshal_receipts : List AuthorityReceipt → Option String
  pub marshal_binding : Option ObjectiveBinding → Option String
  pub marshal_program : Program → Option String
  pub marshal_prescription : Prescription → Option String
  pub marshal_receipt : Receipt → Option String

module _ (codec : Codec) where
  -- `contentHash(value)`, given what `json.Marshal(value)` returned
  unfoldable pub content_hash : Option String → Result String
  content_hash encoded = do text ← from_option marshal_failed encoded; ok (codec.sha256_hex text)

-- The only error is that of `json.Marshal`.
pub content_hash-eq-err :
    (codec : Codec) (encoded : Option String) {e : Error}
    → content_hash codec encoded ≡ err e
    → e ≡ marshal_failed
unfolding content_hash
content_hash-eq-err codec none h = cc
content_hash-eq-err codec (some text) h = cc
