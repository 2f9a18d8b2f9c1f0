-- ===== src/Transport/Control.antt =====
-- Control frames: a message through the encoder and the decoder, and streams of messages.
use nodima_sdk.Base.{
  ℕ, zero, suc, ◌^◌, ◌≤◌, ◌<◌, ◌≡◌, refl, ap, ◌∙◌, inl, List, [], ◌∷◌, ◌++◌, length, All,
  Result-cases, ok, Error, arith, false, Bool-cases, inr,
}
use nodima_sdk.Base.Action.{Action, lift, ◌>>=◌}
use nodima_sdk.Message.{validate_message, is_batch_type}
use nodima_sdk.Message.Types.{Message}
use nodima_sdk.Cbor.{Cbor}
use nodima_sdk.Arrow.{Arrow}
use nodima_sdk.Wire.{Reader, Writer}
use nodima_sdk.Wire.Writing.{Wrote}
use nodima_sdk.Codec.RoundTrip.{nothing_sent}
use mathlib.Core.List.{append_assoc, append-nil}
use nodima_sdk.Transport.Payload.{TransportFrame, control, decode_payload, decode_control}
use nodima_sdk.Transport.{encode_control, decode}
use nodima_sdk.Transport.Frames.{frame, write_frame-Wrote, write_frame_free, decode-frame}

-- A control message that the CBOR library marshals to `payload` and reads back from it.
pub record Travels (cbor : Cbor) (max : ℕ) (m : Message) (payload : List ℕ) : Type 0 where
  pub plain : is_batch_type m.type ≡ false
  pub valid : validate_message m ≡ ok tt
  pub marshalled : cbor.marshal m ≡ ok payload
  pub unmarshalled : cbor.unmarshal payload ≡ ok m
  pub positive : 0 < length payload
  pub fits : length payload ≤ max

module _ (cbor : Cbor) (max : ℕ) (m : Message) (payload : List ℕ) where
  -- When the message marshals to a payload, whatever the writer does: success means that the whole
  -- frame of that payload was sent behind what was sent before, an error that a prefix of it was.
  pub encode_control-Wrote :
      (w : Writer)
      → cbor.marshal m ≡ ok payload
      → Wrote (frame 1 payload) w.sent (encode_control cbor max m w)
  unfolding encode_control
  encode_control-Wrote w e = elim (Bool-cases (is_batch_type m.type)) [
    | inl q ↦ rw q (nothing_sent (frame 1 payload) w.sent)
    | inr q ↦ elim (Result-cases (validate_message m)) [
      | inr (x, p) ↦ rw (q, p) (nothing_sent (frame 1 payload) w.sent)
      | inl (u, p) ↦ rw (q, p, e) (write_frame-Wrote max 1 payload w)
    ]
  ]

  encode_control_free :
      (sent : List ℕ)
      → Travels cbor max m payload
      → encode_control cbor max m (record { answers = []; sent = sent })
        ≡ (ok tt, record { answers = []; sent = sent ++ frame 1 payload })
  unfolding encode_control
  encode_control_free sent t =
      rw (t.plain, t.valid, t.marshalled, write_frame_free max 1 payload sent t.positive t.fits)
        refl

  decode_control_lem :
      (arrow : Arrow)
      → Travels cbor max m payload
      → decode_payload arrow cbor 1 payload ≡ ok (control m)
  unfolding decode_payload decode_control
  decode_control_lem arrow t = rw (t.unmarshalled, t.plain, t.valid) refl

  -- Encoding a valid control message, that fits and that the CBOR library reads back, into a writer
  -- that takes everything appends one frame, and a decoder whose limit is no lower reads the same
  -- message back from it and leaves what follows.
  pub decode-encode_control :
      (arrow : Arrow) (limit : ℕ) (sent rest : List ℕ) (final : Error)
      → Travels cbor max m payload
      → max ≤ limit
      → limit < 2 ^ 32
      → (encode_control cbor max m (record { answers = []; sent = sent })
          ≡ (ok tt, record { answers = []; sent = sent ++ frame 1 payload }))
        × (decode arrow cbor limit (record { content = frame 1 payload ++ rest; final = final })
            ≡ (ok (control m), record { content = rest; final = final }))
  decode-encode_control arrow limit sent rest final t le small = (
    encode_control_free sent t,
    decode-frame arrow cbor limit 1 payload rest final (inl refl) t.positive (omega arith) small
        ∙ ap (λ r. (r, record { content = rest; final = final })) (decode_control_lem arrow t),
  )

-- The messages of a stream, with their payloads.
abbrev pub AllTravel : Cbor → ℕ → List (Message × List ℕ) → Type 0
AllTravel cbor max = All (λ p. Travels cbor max p.0 p.1)

-- The bytes of a stream: the frames, one behind the other.
abbrev pub wire_of : List (Message × List ℕ) → List ℕ
wire_of [] = []
wire_of ((m, payload) ∷ ms) = frame 1 payload ++ wire_of ms

-- A peer that sends the messages one after the other and stops at the first error.
unfoldable pub send_all : Cbor → ℕ → List (Message × List ℕ) → Action Writer (Unit {0})
send_all cbor max [] w = (ok tt, w)
send_all cbor max ((m, payload) ∷ ms) w =
    (encode_control cbor max m >>= λ u. send_all cbor max ms) w

-- A peer that decodes `n` frames.
unfoldable pub receive :
    (arrow : Arrow) → Cbor → ℕ → ℕ → Action Reader (List (TransportFrame arrow.RecordBatch))
receive arrow cbor max zero r = (ok [], r)
receive arrow cbor max (suc n) r =
    (decode arrow cbor max >>= λ f. receive arrow cbor max n >>= λ fs. lift (ok (f ∷ fs))) r

abbrev pub frames_of :
    (arrow : Arrow) → List (Message × List ℕ) → List (TransportFrame arrow.RecordBatch)
frames_of arrow [] = []
frames_of arrow ((m, payload) ∷ ms) = control m ∷ frames_of arrow ms

send_all_free :
    (cbor : Cbor) (max : ℕ) (ms : List (Message × List ℕ)) (sent : List ℕ)
    → AllTravel cbor max ms
    → send_all cbor max ms (record { answers = []; sent = sent })
      ≡ (ok tt, record { answers = []; sent = sent ++ wire_of ms })
unfolding send_all
send_all_free cbor max [] sent t = rw append-nil refl
send_all_free cbor max ((m, payload) ∷ ms) sent (t, ts) =
    rw
      (
        encode_control_free cbor max m payload sent t,
        send_all_free cbor max ms (sent ++ frame 1 payload) ts,
        append_assoc sent (frame 1 payload) (wire_of ms),
      )
      refl

receive_frames :
    (arrow : Arrow) (cbor : Cbor) (max limit : ℕ) (ms : List (Message × List ℕ)) (rest : List ℕ)
    (final : Error)
    → AllTravel cbor max ms
    → max ≤ limit
    → limit < 2 ^ 32
    → receive arrow cbor limit (length ms) (record { content = wire_of ms ++ rest; final = final })
      ≡ (ok (frames_of arrow ms), record { content = rest; final = final })
unfolding receive
receive_frames arrow cbor max limit [] rest final t le small = refl
receive_frames arrow cbor max limit ((m, payload) ∷ ms) rest final (t, ts) le small =
    rw
      (
        append_assoc (frame 1 payload) (wire_of ms) rest,
        (decode-encode_control cbor max m payload arrow limit [] (wire_of ms ++ rest) final t le
            small).1,
        receive_frames arrow cbor max limit ms rest final ts le small,
      )
      refl

-- A stream of control messages keeps its boundaries: sent one after the other into a writer that
-- takes everything, valid messages that fit the limit and that the CBOR library reads back come out
-- of as many decodes, in order and unchanged, and what follows the stream is left.
pub receive-send_all :
    (arrow : Arrow) (cbor : Cbor) (max limit : ℕ) (ms : List (Message × List ℕ))
    (sent rest : List ℕ) (final : Error)
    → AllTravel cbor max ms
    → max ≤ limit
    → limit < 2 ^ 32
    → (send_all cbor max ms (record { answers = []; sent = sent })
        ≡ (ok tt, record { answers = []; sent = sent ++ wire_of ms }))
      × (receive arrow cbor limit
            (length ms)
            (record { content = wire_of ms ++ rest; final = final })
          ≡ (ok (frames_of arrow ms), record { content = rest; final = final }))
receive-send_all arrow cbor max limit ms sent rest final t le small =
    (send_all_free cbor max ms sent t, receive_frames arrow cbor max limit ms rest final t le small)
