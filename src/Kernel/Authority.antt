-- ===== src/Kernel/Authority.antt =====
-- Authority receipts and their projection, boatstack/kernel/types.go.
pub mod Projection
use boatstack.Base.{
  ℕ, String, Bool, not, ◌&&◌, ◌||◌, ◌==◌, List, [], ◌∷◌, ◌++◌, contains, is_empty, eqb, ltb,
}
use boatstack.Base.Text.{str_ltb}
use boatstack.Base.Sort.{sort}
use boatstack.Kernel.Types.{Capability, AuthorityReceipt, AuthorityProjection}
use boatstack.Kernel.Identifier.{semantic_id}
use boatstack.Kernel.Error.{
  Check, Result, ok, receipt_invalid_or_expired, receipt_grants_nothing, receipt_duplicated, ◌>>=◌,
  ◌>>◌, refuse_if,
}
use boatstack.Kernel.Codec.{Codec, content_hash}
use boatstack.Kernel.Capability.{normalize_capabilities}

-- AuthorityReceipt.Validate
unfoldable pub validate_receipt_at : ℕ → AuthorityReceipt → Check
validate_receipt_at now r = do
  refuse_if
      (not (semantic_id r.id)
        || r.subject == ""
        || r.fingerprint == ""
        || eqb r.issued_at 0
        || ltb now r.issued_at
        || (not (eqb r.expires_at 0) && not (ltb now r.expires_at)))
      (receipt_invalid_or_expired r.id)
  refuse_if (is_empty r.capabilities) (receipt_grants_nothing r.id)
  _ ← normalize_capabilities r.capabilities
  ok tt

abbrev pub receipt_before : AuthorityReceipt → AuthorityReceipt → Bool
receipt_before a b = str_ltb a.id b.id

-- the loop over the sorted receipts
admit_receipts :
    ℕ → List String → List Capability → List AuthorityReceipt → Result (List Capability)
unfolding validate_receipt_at
admit_receipts now seen capabilities [] = ok capabilities
admit_receipts now seen capabilities (receipt ∷ receipts) = do
  validate_receipt_at now receipt
  refuse_if (contains seen receipt.id) (receipt_duplicated receipt.id)
  admit_receipts now (receipt.id ∷ seen) (capabilities ++ receipt.capabilities) receipts

-- Authority.projection
unfoldable pub projection : Codec → ℕ → List AuthorityReceipt → Result AuthorityProjection
unfolding admit_receipts
projection codec now given = do
  let receipts = sort receipt_before given
  granted ← admit_receipts now [] [] receipts
  capabilities ← normalize_capabilities granted
  fingerprint ← content_hash codec (codec.marshal_receipts receipts)
  ok (record { fingerprint = fingerprint; capabilities = capabilities })
