-- ===== src/Transport/Payload.antt =====
-- runner/v1/transport.go: the payloads of frames, between the values and their bytes.
pub mod Limited
use nodima_sdk.Base.{
  ℕ, String, ◌+◌, ◌-◌, ◌*◌, ◌^◌, Option, some, none, List, [], ◌∷◌, ◌++◌, length, take, drop,
  Result, ok, err, Error, errorf, wrapf, wrap, num, reject, ◌>>=◌, ◌>>◌, ltb, leb, eqb, true, false,
  ◌||◌,
}
use nodima_sdk.Message.{validate_message, is_batch_type}
use nodima_sdk.Message.Types.{Message}
use nodima_sdk.Metadata.{BatchMetadata, validate_metadata}
use nodima_sdk.Arrow.{Arrow, validate_arrow_record}
use nodima_sdk.Cbor.{Cbor}
use nodima_sdk.Wire.Bytes.{uint32}

abbrev pub max_batch_metadata_bytes : ℕ
max_batch_metadata_bytes = 64 * 2 ^ 10

-- `TransportFrame`: a control message, or the metadata and the record of a batch.
pub data TransportFrame (R : Type 0) : Type 0 where
  control : Message → TransportFrame R
  batch : BatchMetadata → R → TransportFrame R

-- `limitedWriter.Write` into a buffer, for the chunks that an IPC writer hands over; the result is
-- the buffer behind them.
unfoldable pub write_limited : ℕ → List ℕ → List (List ℕ) → Result (List ℕ)
write_limited remaining buffer [] = ok buffer
write_limited remaining buffer (chunk ∷ chunks) = elim (ltb remaining (length chunk)) [
  | true ↦ err (errorf "Arrow IPC payload exceeds runner frame limit" [])
  | false ↦ write_limited (remaining - length chunk) (buffer ++ chunk) chunks
]

module _ (arrow : Arrow) where
  open arrow use {RecordBatch, write_chunks, write_failure, close_chunks, close_failure, report}

  -- One step of the IPC writer on the limited stream: its chunks behind `buffer` in what the frame
  -- limit leaves, or the error that it returns.
  unfoldable pub write_stream : String → ℕ → List ℕ → List (List ℕ) → Option Error → Result (List ℕ)
  write_stream text max_frame_bytes buffer chunks failure =
      elim (write_limited (max_frame_bytes - length buffer) buffer chunks) [
        | err e ↦ err (wrapf text [] (report e))
        | ok payload ↦ elim failure [ some e ↦ err (wrapf text [] e) | none ↦ ok payload ]
      ]

  -- The Arrow stream of a record, written and closed behind `buffer`.
  unfoldable pub write_record : ℕ → List ℕ → RecordBatch → Result (List ℕ)
  write_record max_frame_bytes buffer r =
      write_stream "encode Arrow record batch: %w" max_frame_bytes buffer (write_chunks r)
        (write_failure r)
      >>= λ payload.
          write_stream "close Arrow record batch stream: %w" max_frame_bytes payload
            (close_chunks r) (close_failure r)

  -- What the reader of the IPC stream finds: exactly one record, and no error behind it.
  unfoldable pub take_record : Result (List RecordBatch × Option Error) → Result RecordBatch
  take_record (err e) = err (wrapf "create Arrow batch reader: %w" [] e)
  take_record (ok ([], some e)) = err (wrapf "read Arrow record batch: %w" [] e)
  take_record (ok ([], none)) = err (errorf "Arrow batch frame contains no record batch" [])
  take_record (ok (r ∷ (q ∷ rest), final)) =
      err (errorf "Arrow batch frame contains more than one record batch" [])
  take_record (ok (r ∷ [], some e)) = err (wrapf "finish Arrow record batch: %w" [] e)
  take_record (ok (r ∷ [], none)) =
      elim (wrap "validate Arrow record batch: %w" [] (validate_arrow_record arrow (some r))) [
        | err e ↦ err e
        | ok u ↦ ok r
      ]

module _ (arrow : Arrow) (cbor : Cbor) where
  open arrow use {RecordBatch, read_records}

  -- `TransportDecoder.decodeControl`
  unfoldable pub decode_control : List ℕ → Result (TransportFrame RecordBatch)
  decode_control payload = do
    m ← wrap "decode runner control message: %w" [] (cbor.unmarshal payload)
    reject (is_batch_type m.type) (errorf "CBOR control frame cannot contain a batch message" [])
    wrap "validate runner control message: %w" [] (validate_message m)
    ok (control m)

  -- `TransportDecoder.decodeBatch`
  unfoldable pub decode_batch : List ℕ → Result (TransportFrame RecordBatch)
  decode_batch payload = do
    reject (ltb (length payload) 4) (errorf "Arrow batch frame has no metadata length" [])
    let metadata_length = uint32 (take 4 payload)
    reject (eqb metadata_length 0 || ltb max_batch_metadata_bytes metadata_length) (
        errorf "Arrow batch metadata declares %d bytes, limit is %d"
          (num metadata_length ∷ num max_batch_metadata_bytes ∷ []))
    let arrow_offset = 4 + metadata_length
    reject (leb (length payload) arrow_offset)
        (errorf "Arrow batch frame has truncated metadata or no IPC payload" [])
    metadata ←
        wrap "decode Arrow batch metadata: %w" []
          (cbor.unmarshal_metadata (drop 4 (take arrow_offset payload)))
    wrap "validate Arrow batch metadata: %w" [] (validate_metadata metadata)
    r ← take_record arrow (read_records (drop arrow_offset payload))
    ok (batch metadata r)

  -- The switch on the frame's kind, which `Decode` has checked.
  unfoldable pub decode_payload : ℕ → List ℕ → Result (TransportFrame RecordBatch)
  decode_payload kind payload = elim (eqb kind 1) [
    | true ↦ decode_control payload
    | false ↦ decode_batch payload
  ]
