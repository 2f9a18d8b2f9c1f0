-- ===== src/Transport/Messages.antt =====
-- runner/v1/transport.go: `EncodeMessage` and `DecodeMessage`, which carry whole messages over the
-- two kinds of frames.
pub mod RoundTrip
pub mod Channel
pub mod Accept
mod Tests
use nodima_sdk.Base.{
  ℕ, ◌≡◌, Option, some, none, List, Result, ok, err, panic, wrap, if◌then◌else◌, [],
}
use nodima_sdk.Base.Action.{Action, lift, ◌>>=◌, ◌>>◌}
use nodima_sdk.Batch.{Batch}
use nodima_sdk.Message.{validate_message, is_batch_type}
use nodima_sdk.Message.Types.{Message, new_message}
use nodima_sdk.Metadata.{BatchMetadata}
use nodima_sdk.Arrow.{Arrow}
use nodima_sdk.Arrow.Convert.{batch_to_arrow, arrow_to_batch}
use nodima_sdk.Cbor.{Cbor}
use nodima_sdk.Wire.{Reader, Writer}
use nodima_sdk.Transport.Payload.{TransportFrame, control, batch}
use nodima_sdk.Transport.{encode_control, encode_batch, decode}

abbrev pub metadata_of : Message → BatchMetadata
metadata_of m = record {
  abi = m.abi;
  type = m.type;
  execution_id = m.execution_id;
  node_id = m.node_id;
  port_id = m.port_id;
  edge_id = m.edge_id;
  sequence = m.sequence;
}

-- The message with the fields of the metadata, and the batch.
abbrev pub batch_message : BatchMetadata → Batch → Message
batch_message d b = record (new_message d.type) {
  abi = d.abi;
  execution_id = d.execution_id;
  node_id = d.node_id;
  port_id = d.port_id;
  edge_id = d.edge_id;
  sequence = d.sequence;
  batch = some b;
}

-- `*message.Batch`
abbrev pub batch_of : Option Batch → Result Batch
batch_of none = err panic
batch_of (some b) = ok b

-- What `DecodeMessage` makes of a frame.
unfoldable pub message_of : (arrow : Arrow) → TransportFrame arrow.RecordBatch → Result Message
message_of arrow (control m) = ok m
message_of arrow (batch d r) =
    elim (wrap "convert Arrow transport batch: %w" [] (arrow_to_batch arrow (some r))) [
      | err e ↦ err e
      | ok b ↦
          elim (wrap "validate decoded Arrow batch message: %w" []
            (validate_message (batch_message d b))) [
              | err e ↦ err e
              | ok u ↦ ok (batch_message d b)
            ]
    ]

module _ (arrow : Arrow) (cbor : Cbor) (max_frame_bytes : ℕ) where
  -- `TransportEncoder.EncodeMessage`, below the test for a batch message.
  unfoldable pub encode_batch_message : Message → Action Writer (Unit {0})
  encode_batch_message m = do
    lift (wrap "validate runner batch message: %w" [] (validate_message m))
    b ← lift (batch_of m.batch)
    r ← lift (wrap "convert runner batch to Arrow: %w" [] (batch_to_arrow arrow b))
    encode_batch arrow cbor max_frame_bytes (metadata_of m) (some r)

  -- `TransportEncoder.EncodeMessage`
  unfoldable pub encode_message : Message → Action Writer (Unit {0})
  encode_message m =
      if is_batch_type m.type then encode_batch_message m else encode_control cbor max_frame_bytes m

  -- `TransportDecoder.DecodeMessage`
  unfoldable pub decode_message : Action Reader Message
  decode_message = decode arrow cbor max_frame_bytes >>= λ f. lift (message_of arrow f)
