-- ===== src/Transport/Frames.antt =====
-- Frames on the wire: what the encoder writes, and how the decoder reads it back.
use nodima_sdk.Base.{
  ℕ, ◌%◌, ◌^◌, ◌≤◌, ◌<◌, ◌≡◌, refl, ◌∙◌, ◌⊎◌, inl, inr, List, [], ◌∷◌, ◌++◌, length, take, drop, ok,
  Error, arith, ltb, eqb, true, false, Bool-cases, not, ◌&&◌,
}
use nodima_sdk.Cbor.{Cbor}
use nodima_sdk.Arrow.{Arrow}
use nodima_sdk.Wire.{Writer}
use nodima_sdk.Wire.Bytes.{uint32, uint32-put_uint32, length-put_uint32}
use nodima_sdk.Wire.Writing.{Wrote, write_all_free}
use nodima_sdk.Codec.RoundTrip.{read_full-append, parts-Wrote, nothing_sent}
use nodima_sdk.Transport.Payload.{decode_payload}
use nodima_sdk.Transport.{bytes_equal, header_of, kind_byte, write_frame, decode, transport_magic}
use mathlib.Core.List.{append_assoc}

-- A frame: the header of nine bytes, and the payload.
abbrev pub frame : ℕ → List ℕ → List ℕ
frame kind payload = header_of kind payload ++ payload

pub write_frame-Wrote :
    (max kind : ℕ) (payload : List ℕ) (w : Writer)
    → Wrote (frame kind payload) w.sent (write_frame max kind payload w)
unfolding write_frame
write_frame-Wrote max kind [] w = nothing_sent (frame kind []) w.sent
write_frame-Wrote max kind (b ∷ bs) w = elim (Bool-cases (ltb max (length (b ∷ bs)))) [
  | inl q ↦ rw q (nothing_sent (frame kind (b ∷ bs)) w.sent)
  | inr q ↦ rw q (parts-Wrote _ _ (header_of kind (b ∷ bs)) (b ∷ bs) w)
]

pub write_frame_free :
    (max kind : ℕ) (payload sent : List ℕ)
    → 0 < length payload
    → length payload ≤ max
    → write_frame max kind payload (record { answers = []; sent = sent })
      ≡ (ok tt, record { answers = []; sent = sent ++ frame kind payload })
unfolding write_frame
write_frame_free max kind [] sent positive fits = absurd (omega arith)
write_frame_free max kind (b ∷ bs) sent positive fits =
    let q : ltb max (length (b ∷ bs)) ≡ false = ground arith in
    rw (q, write_all_free, write_all_free, append_assoc) refl

-- The parts of a header that the decoder reads.
header_parts :
    (kind : ℕ) (payload : List ℕ)
    → kind < 256
    → length payload < 2 ^ 32
    → (length (header_of kind payload) ≡ 9)
      × (bytes_equal (take 4 (header_of kind payload)) transport_magic ≡ true)
      × (kind_byte (header_of kind payload) ≡ kind)
      × (uint32 (drop 5 (header_of kind payload)) ≡ length payload)
unfolding header_of bytes_equal
header_parts kind payload small fits = (
  omega (arith, length-put_uint32 (length payload % 2 ^ 32)),
  refl,
  omega arith,
  uint32-put_uint32 (length payload % 2 ^ 32) (omega arith) ∙ omega arith,
)

module _ (arrow : Arrow) (cbor : Cbor) (max : ℕ) where
  -- A decoder takes a whole frame, and decides by its kind and payload alone.
  pub decode-frame :
      (kind : ℕ) (payload rest : List ℕ) (final : Error)
      → (kind ≡ 1) ⊎ (kind ≡ 2)
      → 0 < length payload
      → length payload ≤ max
      → max < 2 ^ 32
      → decode arrow cbor max (record { content = frame kind payload ++ rest; final = final })
        ≡ (decode_payload arrow cbor kind payload, record { content = rest; final = final })
  unfolding decode
  decode-frame kind payload rest final known positive fits small =
      let (nine, magic, byte, size) = header_parts kind payload (ground arith) (omega arith) in
      let p : eqb (length payload) 0 ≡ false = ground arith in
      let q : ltb max (length payload) ≡ false = ground arith in
      let k : (not (eqb kind 1) && not (eqb kind 2)) ≡ false = ground arith in
      rw
        (
          append_assoc (header_of kind payload) payload rest,
          read_full-append 9 (header_of kind payload) (payload ++ rest) final nine,
          magic,
          byte,
          size,
          k,
          p,
          q,
          read_full-append (length payload) payload rest final refl,
        )
        refl
