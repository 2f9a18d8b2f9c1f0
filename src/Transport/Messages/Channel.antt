-- ===== src/Transport/Messages/Channel.antt =====
-- The two ends of a pipe: what one sends by `EncodeMessage` and the other takes by `DecodeMessage`,
-- in any order, against a queue of messages.
use mathlib.Core.Option
use nodima_sdk.Base.{
  if◌then◌else◌, ℕ, ◌^◌, ◌≤◌, ◌<◌, ◌≡◌, refl, ap, sym, ◌∙◌, true, some, List, [], ◌∷◌, ◌++◌, map,
  All, Result, ok, err, eof,
}
use nodima_sdk.Batch.{Batch}
use nodima_sdk.Message.{validate_message, is_batch_type}
use nodima_sdk.Message.Types.{Message, new_message}
use nodima_sdk.Arrow.{Arrow}
use nodima_sdk.Arrow.Convert.{batch_to_arrow}
use nodima_sdk.Arrow.Convert.Normal.{normal}
use nodima_sdk.Arrow.Convert.Columns.{Builds}
use nodima_sdk.Cbor.{Cbor}
use nodima_sdk.Wire.{read_full}
use nodima_sdk.Transport.{decode}
use nodima_sdk.Transport.Frames.{frame}
use nodima_sdk.Transport.Control
use nodima_sdk.Transport.Batches
use nodima_sdk.Transport.Messages.{metadata_of, encode_message, decode_message}
use nodima_sdk.Transport.Messages.RoundTrip.{
  decode_message-encode_message, decode_message-encode_batch_message,
}
use mathlib.Core.List.{append_assoc, append-nil}

-- A message with what the libraries write for it: a payload, or a batch's metadata and stream.
pub data Parcel : Type 0 where
  plain : Message → List ℕ → Parcel
  loaded : Message → Batch → List ℕ → List ℕ → Parcel

abbrev pub message_in : Parcel → Message
message_in (plain m payload) = m
message_in (loaded m b bytes stream) = m

abbrev pub frame_of : Parcel → List ℕ
frame_of (plain m payload) = frame 1 payload
frame_of (loaded m b bytes stream) = frame 2 (Batches.batch_payload bytes stream)

-- What a sent message arrives as: a control message unchanged; a batch message with the normal form
-- of its batch and the fields that stand here, and without its configuration, error, log, progress
-- and host resources.
abbrev pub arrive : Message → Message
arrive m =
    if is_batch_type m.type
    then record (new_message m.type) {
      abi = m.abi;
      execution_id = m.execution_id;
      node_id = m.node_id;
      port_id = m.port_id;
      edge_id = m.edge_id;
      sequence = m.sequence;
      batch = Option.map normal m.batch;
    }
    else m

abbrev pub wire_of : List Parcel → List ℕ
wire_of [] = []
wire_of (p ∷ ps) = frame_of p ++ wire_of ps

wire_of-append :
    (ps : List Parcel) (p : Parcel) → wire_of (ps ++ (p ∷ [])) ≡ wire_of ps ++ frame_of p
wire_of-append [] p = append-nil (frame_of p)
wire_of-append (q ∷ ps) p =
    ap (λ l. frame_of q ++ l) (wire_of-append ps p)
    ∙ sym (append_assoc (frame_of q) (wire_of ps) (frame_of p))

map-append :
    (ps : List Parcel) (p : Parcel)
    → map message_in (ps ++ (p ∷ [])) ≡ map message_in ps ++ (message_in p ∷ [])
map-append [] p = refl
map-append (q ∷ ps) p = ap (λ l. message_in q ∷ l) (map-append ps p)

All-append :
    (P : Parcel → Type 0) (ps : List Parcel) (p : Parcel) → All P ps → P p → All P (ps ++ (p ∷ []))
All-append P [] p a h = (h, tt)
All-append P (q ∷ ps) p (x, a) h = (x, All-append P ps p a h)

pub data Op : Type 0 where
  send : Parcel → Op
  receive : Op

pub data Outcome : Type 0 where
  sent : Result (Unit {0}) → Outcome
  received : Result Message → Outcome

-- The abstract view: a queue of the messages that were sent, each received as it arrives, and the
-- end of the stream when there is none.
unfoldable pub queue_step : Op → List Message → Outcome × List Message
queue_step (send p) queue = (sent (ok tt), queue ++ (message_in p ∷ []))
queue_step receive [] = (received (err eof), [])
queue_step receive (m ∷ queue) = (received (ok (arrive m)), queue)

abbrev pub run {ℓ} : {S : Type ℓ} → (Op → S → Outcome × S) → List Op → S → List Outcome × S
run step [] s = ([], s)
run step (o ∷ os) s =
    let (outcome, s') = step o s in
    let (outcomes, last) = run step os s' in (outcome ∷ outcomes, last)

module _ (arrow : Arrow) (cbor : Cbor) (max limit : ℕ) where
  -- The code, on the bytes between the ends.
  unfoldable pub pipe_step : Op → List ℕ → Outcome × List ℕ
  pipe_step (send p) content =
      let (r, w) =
        encode_message arrow cbor max (message_in p) (record { answers = []; sent = content }) in
      (sent r, w.sent)
  pipe_step receive content =
      let (r, d) = decode_message arrow cbor limit (record { content = content; final = eof }) in
      (received r, d.content)

  -- What a parcel says of its message and of the libraries.
  abbrev pub IsCarried : Parcel → Type 0
  IsCarried (plain m payload) = Control.Travels cbor max m payload
  IsCarried (loaded m b bytes stream) =
      (validate_message m ≡ ok tt)
      × (is_batch_type m.type ≡ true)
      × (m.batch ≡ some b)
      × (b.row_count < 2 ^ 32)
      × ((r : arrow.RecordBatch)
          → batch_to_arrow arrow b ≡ ok r
          → Batches.Travels arrow cbor max (metadata_of m) r bytes stream)

  abbrev pub AllCarried : List Op → Type 0
  AllCarried [] = Unit
  AllCarried (send p ∷ os) = IsCarried p × AllCarried os
  AllCarried (receive ∷ os) = AllCarried os

  receive_end : pipe_step receive [] ≡ (received (err eof), [])
  unfolding pipe_step decode_message decode read_full
  receive_end = refl

  module _ (law : Builds arrow) (le : max ≤ limit) (small : limit < 2 ^ 32) where
    send-step :
        (p : Parcel) (content : List ℕ)
        → IsCarried p
        → pipe_step (send p) content ≡ (sent (ok tt), content ++ frame_of p)
    unfolding pipe_step
    send-step (plain m payload) content t =
        ap (λ r. (sent r.0, r.1.sent))
          (decode_message-encode_message arrow cbor max m payload limit content [] eof t le small).0
    send-step (loaded m b bytes stream) content (v, h, e, few, t) =
        ap (λ r. (sent r.0, r.1.sent))
          (decode_message-encode_batch_message arrow cbor max m b bytes stream limit content [] eof
            law v h e few t le small).0

    receive-step :
        (p : Parcel) (rest : List ℕ)
        → IsCarried p
        → pipe_step receive (frame_of p ++ rest) ≡ (received (ok (arrive (message_in p))), rest)
    unfolding pipe_step
    receive-step (plain m payload) rest t =
        ap (λ r. (received r.0, r.1.content))
          (decode_message-encode_message arrow cbor max m payload limit [] rest eof t le small).1
        ∙ rw t.plain refl
    receive-step (loaded m b bytes stream) rest (v, h, e, few, t) =
        ap (λ r. (received r.0, r.1.content))
          (decode_message-encode_batch_message arrow cbor max m b bytes stream limit [] rest eof law
            v h e few t le small).1
        ∙ rw (h, e) refl

    -- The pipe implements a first-in, first-out queue of the messages that were sent. From bytes that
    -- hold some messages, any sequence of sends, of messages that fit and that the libraries write and
    -- read back, and of receives has the outcomes of that queue, and leaves the bytes of the messages
    -- that the queue holds then. A receive gives the oldest message as `arrive` describes it: a control
    -- message is the one that was sent, but a batch message has the normal form of its batch and has
    -- lost its configuration, error, log, progress and host resources. A batch has less than 2 ^ 32
    -- rows, the reader's limit is no lower than the writer's and below 2 ^ 32, and the Arrow library is
    -- taken to build what it is given.
    pub pipe-refines_queue :
        (os : List Op) (ps : List Parcel)
        → AllCarried os
        → All IsCarried ps
        → (ps' : List Parcel) × (run pipe_step os (wire_of ps)
            ≡ ((run queue_step os (map message_in ps)).0, wire_of ps'))
          × ((run queue_step os (map message_in ps)).1 ≡ map message_in ps')
          × All IsCarried ps'
    unfolding queue_step
    pipe-refines_queue [] ps c a = (ps, refl, refl, a)
    pipe-refines_queue (send p ∷ os) ps (t, c) a =
        let (ps', e, f, b) =
          pipe-refines_queue os (ps ++ (p ∷ [])) c (All-append IsCarried ps p a t) in
        (
          ps',
          rw (send-step p (wire_of ps) t, sym (wire_of-append ps p), e, map-append ps p) refl,
          rw (map-append ps p) at f,
          b,
        )
    pipe-refines_queue (receive ∷ os) [] c a =
        let (ps', e, f, b) = pipe-refines_queue os [] c tt in (ps', rw (receive_end, e) refl, f, b)
    pipe-refines_queue (receive ∷ os) (p ∷ ps) c (t, a) =
        let (ps', e, f, b) = pipe-refines_queue os ps c a in
        (ps', rw (receive-step p (wire_of ps) t, e) refl, f, b)
