-- ===== src/Metadata.antt =====
-- runner/v1/transport.go: the metadata of a batch frame and its validation.
use nodima_sdk.Base.{
  ℕ, String, [], ◌∷◌, not, Check, ok, errorf, str, reject, ◌>>◌, ◌==◌, ◌≡◌, ◌⊎◌, ◌↔◌, arith, eq_iff,
}
use nodima_sdk.Session.{abi_version}
use nodima_sdk.Message.Types.{MessageType, input_batch, output_batch, type_text}
use nodima_sdk.Message.{is_batch_type}

pub record BatchMetadata : Type 0 where
  pub abi : String
  pub type : MessageType
  pub execution_id : String
  pub node_id : String
  pub port_id : String
  pub edge_id : String
  pub sequence : ℕ

-- `BatchMetadata.Validate`
unfoldable pub validate_metadata : BatchMetadata → Check
validate_metadata m = do
  reject (not (m.abi == abi_version)) (errorf "unsupported runner ABI %q" (str m.abi ∷ []))
  reject (not (is_batch_type m.type))
      (errorf "Arrow batch frame has invalid message type %q" (str (type_text m.type) ∷ []))

-- Metadata is accepted exactly when it speaks this ABI and is that of a batch message.
pub validate_metadata_iff :
    (m : BatchMetadata)
    → (validate_metadata m ≡ ok tt)
      ↔ ((m.abi ≡ abi_version) × ((m.type ≡ input_batch) ⊎ (m.type ≡ output_batch)))
unfolding validate_metadata
validate_metadata_iff m = ground (arith, eq_iff m.abi abi_version)
