-- ===== src/Codec/RoundTrip.antt =====
-- What `Encode` writes, and how `Decode` reads it back.
use nodima_sdk.Base.{
  ℕ, ◌%◌, ◌^◌, ◌≤◌, ◌<◌, ◌≡◌, refl, sym, ap, ◌∙◌, String, List, [], ◌++◌, length, Result,
  Result-cases, ok, err, Error, wrap, inl, inr, arith, take-append, drop-append, length-append, ltb,
  leb, eqb, true, false, Bool-cases,
}
use nodima_sdk.Base.Action.{Action, continue, wrapping}
use nodima_sdk.Message.{validate_message}
use nodima_sdk.Message.Types.{Message}
use nodima_sdk.Cbor.{Cbor}
use nodima_sdk.Wire.{Writer, read_full, write_all}
use nodima_sdk.Wire.Bytes.{put_uint32, uint32, uint32-put_uint32, length-put_uint32}
use nodima_sdk.Wire.Writing.{Wrote, Wrote-append, write_all-Wrote, write_all_free}
use nodima_sdk.Codec.{write_parts, encode, decode, parse_payload}
use mathlib.Core.List.{append_assoc, append-nil}

whole : (xs ys : List ℕ) → leb (length xs) (length (xs ++ ys)) ≡ true
whole xs ys = ground (arith, length-append xs ys)

-- Reading back a part of known length.
pub read_full-append :
    (n : ℕ) (xs ys : List ℕ) (final : Error)
    → length xs ≡ n
    → read_full n (record { content = xs ++ ys; final = final })
      ≡ (ok xs, record { content = ys; final = final })
unfolding read_full
read_full-append n xs ys final e = rw (← e, whole xs ys, take-append, drop-append) refl

wrapped-Wrote :
    (text : String) (payload sent : List ℕ) (r : Result (Unit {0})) (w : Writer)
    → Wrote payload sent (r, w)
    → Wrote payload sent (wrap text [] r, w)
wrapped-Wrote text payload sent (ok u) w h = h
wrapped-Wrote text payload sent (err e) w h = h

-- Nothing was sent: the empty prefix.
pub nothing_sent :
    (payload sent : List ℕ)
    → (front : List ℕ) × (back : List ℕ) × (front ++ back ≡ payload) × (sent ≡ sent ++ front)
nothing_sent payload sent = ([], payload, refl, sym (append-nil sent))

parts_lem :
    (f g : String) (header payload sent : List ℕ) (r : Result (Unit {0}) × Writer)
    (next : Action Writer (Unit {0}))
    → Wrote header sent r
    → ((w : Writer) → Wrote payload w.sent (next w))
    → Wrote (header ++ payload) sent (continue (wrap f [] r.0) (λ u. wrapping g [] next) r.1)
parts_lem f g header payload sent (ok u, w) next h k =
    Wrote-append header payload (header ++ payload) sent w.sent (wrapping g [] next w) refl h
      (wrapped-Wrote g payload w.sent (next w).0 (next w).1 (k w))
parts_lem f g header payload sent (err e, w) next (front, back, p, q) k =
    (front, back ++ payload, sym (append_assoc front back payload) ∙ ap (λ l. l ++ payload) p, q)

-- The writes of a frame: all of it after success, a prefix of it after an error.
pub parts-Wrote :
    (f g : String) (header payload : List ℕ) (w : Writer)
    → Wrote (header ++ payload) w.sent (write_parts f g header payload w)
parts-Wrote f g header payload w =
    parts_lem f g header payload w.sent (write_all header w) (write_all payload)
      (write_all-Wrote header w) (write_all-Wrote payload)

-- The frame of a payload: its length in four bytes, and the payload.
abbrev pub frame : List ℕ → List ℕ
frame payload = put_uint32 (length payload % 2 ^ 32) ++ payload

module _ (cbor : Cbor) (max_frame_bytes : ℕ) (m : Message) (payload : List ℕ)
    (marshalled : cbor.marshal m ≡ ok payload) where
  -- When the message marshals to a payload, whatever the writer does: an encoder that returns no
  -- error has sent the one whole frame of that payload, and one that returns an error has sent a
  -- prefix of it.
  pub encode-Wrote : (w : Writer) → Wrote (frame payload) w.sent (encode cbor max_frame_bytes m w)
  unfolding encode
  encode-Wrote w = elim (Result-cases (validate_message m)) [
    | inr (e, p) ↦ rw p (nothing_sent (frame payload) w.sent)
    | inl (u, p) ↦
        rw (p, marshalled)
          (elim (Bool-cases (ltb max_frame_bytes (length payload))) [
            | inl q ↦ rw q (nothing_sent (frame payload) w.sent)
            | inr q ↦ rw q (parts-Wrote _ _ (put_uint32 (length payload % 2 ^ 32)) payload w)
          ])
  ]

  pub encode_free :
      (sent : List ℕ)
      → validate_message m ≡ ok tt
      → length payload ≤ max_frame_bytes
      → encode cbor max_frame_bytes m (record { answers = []; sent = sent })
        ≡ (ok tt, record { answers = []; sent = sent ++ frame payload })
  unfolding encode
  encode_free sent v fits =
      let q : ltb max_frame_bytes (length payload) ≡ false = ground arith in
      rw (v, marshalled, q, write_all_free, write_all_free, append_assoc) refl

-- The decoder on a whole frame, whatever stands behind it.
pub decode-frame :
    (cbor : Cbor) (max : ℕ) (payload rest : List ℕ) (final : Error)
    → 0 < length payload
    → length payload ≤ max
    → max < 2 ^ 32
    → decode cbor max (record { content = frame payload ++ rest; final = final })
      ≡ (parse_payload cbor max payload, record { content = rest; final = final })
unfolding decode
decode-frame cbor max payload rest final positive fits small =
    let n = length payload in
    let e : n % 2 ^ 32 ≡ n = omega arith in
    let size : uint32 (put_uint32 n) ≡ n = uint32-put_uint32 n (omega arith) in
    let p : eqb n 0 ≡ false = ground arith in
    let q : ltb max n ≡ false = ground arith in
    rw
      (
        e,
        append_assoc (put_uint32 n) payload rest,
        read_full-append 4 (put_uint32 n) (payload ++ rest) final (length-put_uint32 n),
        size,
        p,
        q,
        read_full-append n payload rest final refl,
      )
      refl

parse_lem :
    (cbor : Cbor) (max : ℕ) (m : Message) (payload : List ℕ)
    → cbor.unmarshal payload ≡ ok m
    → validate_message m ≡ ok tt
    → parse_payload cbor max payload ≡ ok m
unfolding parse_payload
parse_lem cbor max m payload d v = ground arith

-- Encoding a valid message into a writer that takes everything appends one frame, and a decoder
-- whose limit is no lower reads the same message back from it and leaves what follows. The CBOR
-- library is taken to read back what it wrote for this message.
pub decode-encode :
    (cbor : Cbor) (most limit : ℕ) (m : Message) (payload sent rest : List ℕ) (final : Error)
    → validate_message m ≡ ok tt
    → cbor.marshal m ≡ ok payload
    → cbor.unmarshal payload ≡ ok m
    → 0 < length payload
    → length payload ≤ most
    → most ≤ limit
    → limit < 2 ^ 32
    → (encode cbor most m (record { answers = []; sent = sent })
        ≡ (ok tt, record { answers = []; sent = sent ++ frame payload }))
      × (decode cbor limit (record { content = frame payload ++ rest; final = final })
          ≡ (ok m, record { content = rest; final = final }))
decode-encode cbor most limit m payload sent rest final v e d positive fits le small = (
  encode_free cbor most m payload e sent v fits,
  rw (decode-frame cbor limit payload rest final positive (omega arith) small) (
      ap (λ r. (r, record { content = rest; final = final })) (parse_lem cbor limit m payload d v)),
)
