-- ===== src/Transport/Messages/RoundTrip.antt =====
-- One message through `EncodeMessage` and `DecodeMessage`.
use nodima_sdk.Base.{
  ℕ, ◌^◌, ◌≤◌, ◌<◌, ◌≡◌, refl, sym, ◌⊎◌, inl, inr, true, Option, some, none, List, [], ◌++◌, ok,
  Error, arith, subst,
}
use nodima_sdk.Batch.{Batch}
use nodima_sdk.Batch.Valid.{IsValid, validate_batch_iff}
use nodima_sdk.Session.{abi_version}
use nodima_sdk.Message.{validate_message, is_batch_type}
use nodima_sdk.Message.Types.{Message, MessageType, input_batch, output_batch}
use nodima_sdk.Metadata.{BatchMetadata}
use nodima_sdk.Message.Valid
use nodima_sdk.Message.Valid.{IsPlaced, IsContent, validate_message_iff}
use nodima_sdk.Arrow.{Arrow}
use nodima_sdk.Arrow.Convert.{batch_to_arrow, arrow_to_batch}
use nodima_sdk.Arrow.Convert.Normal.{normal}
use nodima_sdk.Arrow.Convert.Columns.{Builds}
use nodima_sdk.Arrow.Convert.RoundTrip.{arrow_to_batch-batch_to_arrow}
use nodima_sdk.Cbor.{Cbor}
use nodima_sdk.Transport.Frames.{frame}
use nodima_sdk.Transport.Control
use nodima_sdk.Transport.Batches
use nodima_sdk.Transport.Messages.{
  metadata_of, batch_message, message_of, encode_batch_message, encode_message, decode_message,
}

type_cases : (t : MessageType) → is_batch_type t ≡ true → (t ≡ input_batch) ⊎ (t ≡ output_batch)
type_cases t h = ground arith

Given-some : (o : Option Batch) (b : Batch) → Valid.Given IsValid o → o ≡ some b → IsValid b
Given-some (some a) b v e = subst IsValid (cc e) v
Given-some none b v e = absurd v

-- The batch of a valid batch message is valid.
batch_there :
    (m : Message) (b : Batch)
    → validate_message m ≡ ok tt
    → is_batch_type m.type ≡ true
    → m.batch ≡ some b
    → IsValid b
batch_there m b v h e =
    let c = ((validate_message_iff m).0 v).2 in
    elim (type_cases m.type h) [
      | inl t ↦ Given-some m.batch b (subst (λ t. IsContent t m) t c) e
      | inr t ↦ Given-some m.batch b (subst (λ t. IsContent t m) t c) e
    ]

-- The message that is built from metadata and a valid batch is valid.
batch_message-valid :
    (d : BatchMetadata) (b : Batch)
    → d.abi ≡ abi_version
    → is_batch_type d.type ≡ true
    → IsValid b
    → validate_message (batch_message d b) ≡ ok tt
batch_message-valid d b a h v = (validate_message_iff (batch_message d b)).1 (a, placed, content)
  where
    known : (d.type ≡ input_batch) ⊎ (d.type ≡ output_batch)
    known = type_cases d.type h

    content : IsContent d.type (batch_message d b)
    content = elim known [
      | inl e ↦ subst (λ t. IsContent t (batch_message d b)) (sym e) v
      | inr e ↦ subst (λ t. IsContent t (batch_message d b)) (sym e) v
    ]

    placed : IsPlaced (batch_message d b)
    placed = record {
      batch = inr known;
      capability_request = inl refl;
      capability_response = inl refl;
      session_start = inl refl;
      session_ready = inl refl;
      session_connect = inl refl;
      session_completed = inl refl;
      credit = inl refl;
      edge_stats = inl refl;
      sequence = elim known [ inl e ↦ inr (inl e) | inr e ↦ inr (inr (inl e)) ];
    }

module _ (arrow : Arrow) (cbor : Cbor) (max : ℕ) (m : Message) where
  -- A control message that travels as one frame is sent by EncodeMessage as that frame and read
  -- back by DecodeMessage unchanged.
  pub decode_message-encode_message :
      (payload : List ℕ) (limit : ℕ) (sent rest : List ℕ) (final : Error)
      → Control.Travels cbor max m payload
      → max ≤ limit
      → limit < 2 ^ 32
      → (encode_message arrow cbor max m (record { answers = []; sent = sent })
          ≡ (ok tt, record { answers = []; sent = sent ++ frame 1 payload }))
        × (decode_message arrow cbor limit
              (record { content = frame 1 payload ++ rest; final = final })
            ≡ (ok m, record { content = rest; final = final }))
  unfolding encode_message decode_message message_of
  decode_message-encode_message payload limit sent rest final t le small =
      let (a, b) =
        Control.decode-encode_control cbor max m payload arrow limit sent rest final t le small in
      (rw (t.plain, a) refl, rw b refl)

  module _ (b : Batch) (r : arrow.RecordBatch) (bytes stream : List ℕ) where
    abbrev Sent : ℕ → List ℕ → List ℕ → Error → Type 0
    Sent limit sent rest final =
        (encode_message arrow cbor max m (record { answers = []; sent = sent }) ≡ (
          ok tt,
          record { answers = []; sent = sent ++ frame 2 (Batches.batch_payload bytes stream) },
        ))
        × (decode_message arrow cbor limit (record {
          content = frame 2 (Batches.batch_payload bytes stream) ++ rest;
          final = final;
        })
            ≡ (
              ok (batch_message (metadata_of m) (normal b)),
              record { content = rest; final = final },
            ))

    carried :
        (limit : ℕ) (sent rest : List ℕ) (final : Error)
        → validate_message m ≡ ok tt
        → is_batch_type m.type ≡ true
        → m.batch ≡ some b
        → batch_to_arrow arrow b ≡ ok r
        → arrow_to_batch arrow (some r) ≡ ok (normal b)
        → validate_message (batch_message (metadata_of m) (normal b)) ≡ ok tt
        → Batches.Travels arrow cbor max (metadata_of m) r bytes stream
        → max ≤ limit
        → limit < 2 ^ 32
        → Sent limit sent rest final
    unfolding encode_message encode_batch_message decode_message message_of
    carried limit sent rest final v h e built back good t le small =
        let (sends, reads) =
          Batches.decode-encode_batch arrow cbor max (metadata_of m) r bytes stream t limit sent
            rest final le small in
        (rw (h, v, e, built, sends) refl, rw (reads, message_of, back, good) refl)

  -- A valid batch message of less than 2 ^ 32 rows, whose metadata and record the two libraries
  -- write and read back within the limit, is sent by EncodeMessage as one batch frame. DecodeMessage
  -- reads a valid message back from it, which has the fields of the metadata and the normal form of
  -- the batch, and no other field. The Arrow library is taken to build what it is given.
  pub decode_message-encode_batch_message :
      (b : Batch) (bytes stream : List ℕ) (limit : ℕ) (sent rest : List ℕ) (final : Error)
      → Builds arrow
      → validate_message m ≡ ok tt
      → is_batch_type m.type ≡ true
      → m.batch ≡ some b
      → b.row_count < 2 ^ 32
      → ((r : arrow.RecordBatch)
          → batch_to_arrow arrow b ≡ ok r
          → Batches.Travels arrow cbor max (metadata_of m) r bytes stream)
      → max ≤ limit
      → limit < 2 ^ 32
      → (encode_message arrow cbor max m (record { answers = []; sent = sent }) ≡ (
        ok tt,
        record { answers = []; sent = sent ++ frame 2 (Batches.batch_payload bytes stream) },
      ))
        × (decode_message arrow cbor limit (record {
          content = frame 2 (Batches.batch_payload bytes stream) ++ rest;
          final = final;
        })
            ≡ (
              ok (batch_message (metadata_of m) (normal b)),
              record { content = rest; final = final },
            ))
        × (validate_message (batch_message (metadata_of m) (normal b)) ≡ ok tt)
  decode_message-encode_batch_message b bytes stream limit sent rest final law v h e few travels le
        small =
      let valid = batch_there m b v h e in
      let (r, built, portable, back, fine) =
        arrow_to_batch-batch_to_arrow arrow law b ((validate_batch_iff b).1 valid) few in
      let good =
        batch_message-valid (metadata_of m) (normal b) ((validate_message_iff m).0 v).0 h
          ((validate_batch_iff (normal b)).0 fine) in
      let (sends, reads) =
        carried b r bytes stream limit sent rest final v h e built back good (travels r built) le
          small in
      (sends, reads, good)
