-- ===== src/Transport.antt =====
-- runner/v1/transport.go: tagged frames on the wire, CBOR control messages and Arrow batches.
pub mod Payload
pub mod Frames
pub mod Control
pub mod Batches
pub mod Accept
pub mod Messages
mod Samples
mod Tests
use nodima_sdk.Base.{
  ℕ, zero, Bool, true, false, ◌+◌, ◌-◌, ◌*◌, ◌%◌, ◌^◌, String, Option, some, none, List, [], ◌∷◌,
  ◌++◌, length, take, drop, Result, ok, err, Error, errorf, wrapf, wrap, num, raw, reject, ltb, leb,
  eqb, not, ◌||◌, ◌&&◌, is_empty, if◌then◌else◌,
}
use nodima_sdk.Base.Action.{Action, lift, wrapping, ◌>>=◌, ◌>>◌}
use nodima_sdk.Metadata.{BatchMetadata, validate_metadata}
use nodima_sdk.Message.{validate_message, is_batch_type}
use nodima_sdk.Message.Types.{Message}
use nodima_sdk.Arrow.{Arrow, validate_arrow_record}
use nodima_sdk.Cbor.{Cbor}
use nodima_sdk.Wire.{Reader, Writer, read_full}
use nodima_sdk.Wire.Bytes.{put_uint32, uint32}
use nodima_sdk.Codec.{Endpoint, new_endpoint, write_parts}
use nodima_sdk.Transport.Payload.{
  TransportFrame, control, batch, max_batch_metadata_bytes, write_record, decode_payload,
}

-- 'D', 'B', 'M', 1
abbrev pub transport_magic : List ℕ
transport_magic = 0x44 ∷ (0x42 ∷ (0x4d ∷ (1 ∷ [])))

abbrev pub control_kind : ℕ
control_kind = 1

abbrev pub arrow_batch_kind : ℕ
arrow_batch_kind = 2

-- `bytes.Equal`
unfoldable pub bytes_equal : List ℕ → List ℕ → Bool
bytes_equal [] [] = true
bytes_equal (x ∷ xs) (y ∷ ys) = eqb x y && bytes_equal xs ys
bytes_equal _ _ = false

-- The nine bytes before a payload.
unfoldable pub header_of : ℕ → List ℕ → List ℕ
header_of kind payload = transport_magic ++ ((kind % 256) ∷ put_uint32 (length payload % 2 ^ 32))

-- The fifth byte, a byte of a list that holds it.
abbrev pub kind_byte : List ℕ → ℕ
kind_byte (a ∷ b ∷ c ∷ d ∷ k ∷ rest) = k
kind_byte _ = 0

-- `NewTransportEncoder` and `NewTransportDecoder`
abbrev pub new_transport_encoder : Option Writer → ℕ → Result Cbor → Result (Endpoint Writer)
new_transport_encoder =
    new_endpoint "runner transport encoder requires a writer"
      "runner transport encoder requires a positive frame limit"
      "create transport CBOR encoding mode: %w"

abbrev pub new_transport_decoder : Option Reader → ℕ → Result Cbor → Result (Endpoint Reader)
new_transport_decoder =
    new_endpoint "runner transport decoder requires a reader"
      "runner transport decoder requires a positive frame limit"
      "create transport CBOR decoding mode: %w"

module _ (max_frame_bytes : ℕ) where
  -- `TransportEncoder.writeFrame`
  unfoldable pub write_frame : ℕ → List ℕ → Action Writer (Unit {0})
  write_frame kind payload = do
    lift (reject (is_empty payload) (errorf "runner transport frame cannot be empty" []))
    lift (
        reject (ltb max_frame_bytes (length payload)) (
          errorf "runner transport frame is %d bytes, limit is %d"
            (num (length payload) ∷ num max_frame_bytes ∷ [])))
    write_parts "write runner transport header: %w" "write runner transport payload: %w"
        (header_of kind payload) payload

module _ (cbor : Cbor) (max_frame_bytes : ℕ) where
  -- `TransportEncoder.EncodeControl`
  unfoldable pub encode_control : Message → Action Writer (Unit {0})
  encode_control m = do
    lift
        (reject (is_batch_type m.type) (errorf "batch messages must use Arrow transport frames" []))
    lift (wrap "validate runner control message: %w" [] (validate_message m))
    payload ← lift (wrap "encode runner control message: %w" [] (cbor.marshal m))
    write_frame max_frame_bytes control_kind payload

module _ (arrow : Arrow) (cbor : Cbor) (max_frame_bytes : ℕ) where
  open arrow use {RecordBatch}

  -- `TransportEncoder.EncodeBatch`
  unfoldable pub encode_batch : BatchMetadata → Option RecordBatch → Action Writer (Unit {0})
  encode_batch metadata none = do
    lift (wrap "validate Arrow batch metadata: %w" [] (validate_metadata metadata))
    lift (err (errorf "Arrow batch frame requires a record batch" []))
  encode_batch metadata (some r) = do
    lift (wrap "validate Arrow batch metadata: %w" [] (validate_metadata metadata))
    lift (wrap "validate Arrow record batch: %w" [] (validate_arrow_record arrow (some r)))
    bytes ← lift (wrap "encode Arrow batch metadata: %w" [] (cbor.marshal_metadata metadata))
    lift (
        reject (ltb max_batch_metadata_bytes (length bytes)) (
          errorf "Arrow batch metadata is %d bytes, limit is %d"
            (num (length bytes) ∷ num max_batch_metadata_bytes ∷ [])))
    let prefix = put_uint32 (length bytes % 2 ^ 32) ++ bytes
    lift (
        reject (leb max_frame_bytes (length prefix)) (
          errorf "Arrow batch metadata requires %d bytes, frame limit is %d"
            (num (length prefix) ∷ num max_frame_bytes ∷ [])))
    payload ← lift (write_record arrow max_frame_bytes prefix r)
    write_frame max_frame_bytes arrow_batch_kind payload

  -- `TransportDecoder.Decode`
  unfoldable pub decode : Action Reader (TransportFrame RecordBatch)
  decode = do
    header ← read_full 9
    lift (
        reject (not (bytes_equal (take 4 header) transport_magic))
          (errorf "invalid runner transport magic %x" (raw (take 4 header) ∷ [])))
    let kind = kind_byte header
    lift (
        reject (not (eqb kind control_kind) && not (eqb kind arrow_batch_kind))
          (errorf "unknown runner transport frame kind %d" (num kind ∷ [])))
    let size = uint32 (drop 5 header)
    lift (reject (eqb size 0) (errorf "runner transport frame cannot be empty" []))
    lift (
        reject (ltb max_frame_bytes size) (
          errorf "runner transport frame declares %d bytes, limit is %d"
            (num size ∷ num max_frame_bytes ∷ [])))
    payload ← wrapping "read runner transport payload: %w" [] (read_full size)
    lift (decode_payload arrow cbor kind payload)
