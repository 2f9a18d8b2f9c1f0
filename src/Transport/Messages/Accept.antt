-- ===== src/Transport/Messages/Accept.antt =====
-- What a message that `DecodeMessage` returns is, whatever bytes arrive.
use nodima_sdk.Base.{ℕ, ◌≡◌, some, ok, Result-cases, inl, inr, subst}
use nodima_sdk.Message.{validate_message}
use nodima_sdk.Message.Types.{Message}
use nodima_sdk.Arrow.{Arrow}
use nodima_sdk.Arrow.Convert.{arrow_to_batch}
use nodima_sdk.Cbor.{Cbor}
use nodima_sdk.Wire.{Reader}
use nodima_sdk.Transport.{decode}
use nodima_sdk.Transport.Payload.{TransportFrame, control, batch}
use nodima_sdk.Transport.Accept.{IsFrame, decode-IsFrame}
use nodima_sdk.Transport.Messages.{batch_message, message_of, decode_message}

message_of-valid :
    (arrow : Arrow) (f : TransportFrame arrow.RecordBatch) (m : Message)
    → IsFrame arrow f
    → message_of arrow f ≡ ok m
    → validate_message m ≡ ok tt
unfolding message_of
message_of-valid arrow (control c) m v e = cc
message_of-valid arrow (batch d r) m v e = elim (Result-cases (arrow_to_batch arrow (some r))) [
  | inr (x, p) ↦ cc (rw (p, message_of) at e)
  | inl (b, p) ↦ elim (Result-cases (validate_message (batch_message d b))) [
    | inr (x, q) ↦ cc (rw (p, q, message_of) at e)
    | inl (u, q) ↦
        let same : batch_message d b ≡ m = cc (rw (p, q, message_of) at e) in
        subst (λ x. validate_message x ≡ ok tt) same q
  ]
]

-- Whatever bytes arrive, a message that DecodeMessage returns passes validation.
pub decode_message-valid :
    (arrow : Arrow) (cbor : Cbor) (max : ℕ) (r : Reader) (m : Message)
    → (decode_message arrow cbor max r).0 ≡ ok m
    → validate_message m ≡ ok tt
unfolding decode_message
decode_message-valid arrow cbor max r m h = elim (Result-cases ((decode arrow cbor max r).0)) [
  | inr (x, p) ↦ cc (rw (p, decode_message) at h)
  | inl (f, p) ↦
      message_of-valid arrow f m (decode-IsFrame arrow cbor max r f p) (rw (p, decode_message) at h)
]
