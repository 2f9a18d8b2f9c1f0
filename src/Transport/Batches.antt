-- ===== src/Transport/Batches.antt =====
-- Batch frames: metadata and a record batch through the encoder and the decoder.
use nodima_sdk.Base.{
  Option, String, sym, ℕ, ◌+◌, ◌-◌, ◌*◌, ◌%◌, ◌^◌, ◌≤◌, ◌<◌, ◌≡◌, refl, ap, ◌∙◌, inr, none, some,
  List, [], ◌∷◌, ◌++◌, length, take, drop, ok, Error, arith, take-append_at, drop-append_at,
  length-append, ltb, leb, eqb, true, false, ◌||◌,
}
use nodima_sdk.Metadata.{BatchMetadata, validate_metadata}
use nodima_sdk.Cbor.{Cbor}
use nodima_sdk.Arrow.{Arrow, validate_arrow_record}
use nodima_sdk.Wire.Bytes.{put_uint32, uint32, uint32-put_uint32, length-put_uint32}
use nodima_sdk.Transport.Payload.{
  batch, decode_payload, decode_batch, take_record, write_record, write_stream,
  max_batch_metadata_bytes,
}
use nodima_sdk.Transport.Payload.Limited.{concat, write_limited_lem}
use nodima_sdk.Transport.{encode_batch, decode}
use nodima_sdk.Transport.Frames.{frame, write_frame_free, decode-frame}
use mathlib.Core.List.{append_assoc}

-- The payload of a batch: the length of the metadata, the metadata, and the Arrow stream.
abbrev pub batch_payload : List ℕ → List ℕ → List ℕ
batch_payload bytes stream = (put_uint32 (length bytes % 2 ^ 32) ++ bytes) ++ stream

-- The three parts of a payload, as the decoder cuts it.
split_payload :
    (p bytes stream : List ℕ)
    → length p ≡ 4
    → (take 4 ((p ++ bytes) ++ stream) ≡ p)
      × (drop 4 (take (4 + length bytes) ((p ++ bytes) ++ stream)) ≡ bytes)
      × (drop (4 + length bytes) ((p ++ bytes) ++ stream) ≡ stream)
split_payload p bytes stream e =
    let both : length (p ++ bytes) ≡ 4 + length bytes = length-append p bytes ∙ omega arith in
    (
      rw (append_assoc p bytes stream) (take-append_at 4 p (bytes ++ stream) e),
      rw (take-append_at (4 + length bytes) (p ++ bytes) stream both) (drop-append_at 4 p bytes e),
      drop-append_at (4 + length bytes) (p ++ bytes) stream both,
    )

stream_fits :
    (arrow : Arrow) (text : String) (max : ℕ) (buffer : List ℕ) (chunks : List (List ℕ))
    (failure : Option Error)
    → failure ≡ none
    → length buffer + length (concat chunks) ≤ max
    → write_stream arrow text max buffer chunks failure ≡ ok (buffer ++ concat chunks)
unfolding write_stream
stream_fits arrow text max buffer chunks failure e fits =
    let q : leb (length (concat chunks)) (max - length buffer) ≡ true = ground arith in
    ground (arith, q, write_limited_lem (max - length buffer) buffer chunks)

-- Metadata and a record that the two libraries write as `bytes` and `stream`, and read back.
pub record Travels (arrow : Arrow) (cbor : Cbor) (max : ℕ) (metadata : BatchMetadata)
    (r : arrow.RecordBatch) (bytes stream : List ℕ) : Type 0 where
  pub valid_metadata : validate_metadata metadata ≡ ok tt
  pub valid_record : validate_arrow_record arrow (some r) ≡ ok tt
  pub marshalled : cbor.marshal_metadata metadata ≡ ok bytes
  pub unmarshalled : cbor.unmarshal_metadata bytes ≡ ok metadata
  pub written : concat (arrow.write_chunks r) ++ concat (arrow.close_chunks r) ≡ stream
  pub unfailing : (arrow.write_failure r ≡ none) × (arrow.close_failure r ≡ none)
  pub read : arrow.read_records stream ≡ ok (r ∷ [], none)
  pub some_bytes : 0 < length bytes
  pub few_bytes : length bytes ≤ 64 * 2 ^ 10
  pub some_stream : 0 < length stream
  pub fits : 4 + length bytes + length stream ≤ max

module _ (arrow : Arrow) (cbor : Cbor) (max : ℕ) (metadata : BatchMetadata) (r : arrow.RecordBatch)
    (bytes stream : List ℕ) (t : Travels arrow cbor max metadata r bytes stream) where
  header_length : length (put_uint32 (length bytes % 2 ^ 32) ++ bytes) ≡ 4 + length bytes
  header_length =
      length-append (put_uint32 (length bytes % 2 ^ 32)) bytes
      ∙ omega (arith, length-put_uint32 (length bytes % 2 ^ 32))

  payload_length : length (batch_payload bytes stream) ≡ 4 + length bytes + length stream
  payload_length =
      length-append (put_uint32 (length bytes % 2 ^ 32) ++ bytes) stream
      ∙ omega (arith, header_length)

  record_written :
      write_record arrow max (put_uint32 (length bytes % 2 ^ 32) ++ bytes) r
      ≡ ok (batch_payload bytes stream)
  unfolding write_record
  record_written =
      let front = put_uint32 (length bytes % 2 ^ 32) ++ bytes in
      let body = concat (arrow.write_chunks r) in
      let tail = concat (arrow.close_chunks r) in
      let all : length body + length tail ≡ length stream =
        sym (length-append body tail) ∙ ap length t.written in
      let n : length (front ++ body) ≡ length front + length body = length-append front body in
      let first =
        stream_fits arrow "encode Arrow record batch: %w" max front (arrow.write_chunks r)
          (arrow.write_failure r) t.unfailing.0 (omega (arith, all, header_length, t.fits)) in
      let second =
        stream_fits arrow "close Arrow record batch stream: %w" max (front ++ body)
          (arrow.close_chunks r) (arrow.close_failure r) t.unfailing.1
          (omega (arith, n, all, header_length, t.fits)) in
      rw (first, second) (ap ok (append_assoc front body tail ∙ ap (λ l. front ++ l) t.written))

  encode_batch_free :
      (sent : List ℕ)
      → encode_batch arrow cbor max metadata (some r) (record { answers = []; sent = sent })
        ≡ (ok tt, record { answers = []; sent = sent ++ frame 2 (batch_payload bytes stream) })
  unfolding encode_batch
  encode_batch_free sent =
      let p : ltb max_batch_metadata_bytes (length bytes) ≡ false = ground (arith, t.few_bytes) in
      let q : leb max (length (put_uint32 (length bytes % 2 ^ 32) ++ bytes)) ≡ false =
        ground (arith, header_length, t.fits, t.some_stream) in
      rw
        (
          t.valid_metadata,
          t.valid_record,
          t.marshalled,
          p,
          q,
          record_written,
          write_frame_free max 2 (batch_payload bytes stream) sent
              (omega (arith, payload_length, t.some_bytes)) (omega (arith, payload_length, t.fits)),
        )
        refl

  decode_batch_lem :
      decode_payload arrow cbor 2 (batch_payload bytes stream) ≡ ok (batch metadata r)
  unfolding decode_payload decode_batch take_record
  decode_batch_lem =
      let (a, b, c) =
        split_payload (put_uint32 (length bytes % 2 ^ 32)) bytes stream (length-put_uint32 _) in
      let size : uint32 (put_uint32 (length bytes % 2 ^ 32)) ≡ length bytes =
        uint32-put_uint32 (length bytes % 2 ^ 32) (omega arith) ∙ omega (arith, t.few_bytes) in
      let p : ltb (length (batch_payload bytes stream)) 4 ≡ false =
        ground (arith, payload_length) in
      let q : (eqb (length bytes) 0 || ltb max_batch_metadata_bytes (length bytes)) ≡ false =
        ground (arith, t.few_bytes, t.some_bytes) in
      let s : leb (length (batch_payload bytes stream)) (4 + length bytes) ≡ false =
        ground (arith, payload_length, t.some_stream) in
      rw
        (
          p, a, size, q, s, b, c, t.unmarshalled, t.valid_metadata, t.read, take_record,
          t.valid_record,
        )
        refl

  -- Encoding a batch, that is valid, fits and that the two libraries read back, into a writer that
  -- takes everything appends one frame, and a decoder whose limit is no lower reads the same metadata
  -- and record back from it and leaves what follows.
  pub decode-encode_batch :
      (limit : ℕ) (sent rest : List ℕ) (final : Error)
      → max ≤ limit
      → limit < 2 ^ 32
      → (encode_batch arrow cbor max metadata (some r) (record { answers = []; sent = sent })
          ≡ (ok tt, record { answers = []; sent = sent ++ frame 2 (batch_payload bytes stream) }))
        × (decode arrow cbor limit
              (record { content = frame 2 (batch_payload bytes stream) ++ rest; final = final })
            ≡ (ok (batch metadata r), record { content = rest; final = final }))
  decode-encode_batch limit sent rest final le bound = (
    encode_batch_free sent,
    decode-frame arrow cbor limit 2 (batch_payload bytes stream) rest final (inr refl)
          (omega (arith, payload_length, t.some_bytes)) (omega (arith, payload_length, t.fits))
          bound
        ∙ ap (λ d. (d, record { content = rest; final = final })) decode_batch_lem,
  )
