-- ===== src/Cbor.antt =====
-- The CBOR library (github.com/fxamacker/cbor), which the codecs call and the repository does not
-- hold: a parameter. `marshal` is `EncMode.Marshal` in canonical mode, `unmarshal` is
-- `DecMode.Unmarshal` under the decoder's limits, and both are deterministic.
use nodima_sdk.Base.{List, ℕ, Result}
use nodima_sdk.Message.Types.{Message}
use nodima_sdk.Metadata.{BatchMetadata}

pub record Cbor : Type 0 where
  pub marshal : Message → Result (List ℕ)
  pub unmarshal : List ℕ → Result Message
  pub marshal_metadata : BatchMetadata → Result (List ℕ)
  pub unmarshal_metadata : List ℕ → Result BatchMetadata
