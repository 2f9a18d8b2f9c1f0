-- ===== src/Transport/Accept.antt =====
-- What a decoded frame is, whatever bytes arrive.
use nodima_sdk.Base.{
  ℕ, ◌+◌, ◌≤◌, ◌≡◌, refl, ◌⊎◌, inl, inr, none, some, Option, List, [], ◌∷◌, length, take, drop,
  Result, ok, err, Error, arith, false, Bool-cases, Result-cases, >>=-eq-ok, >>-eq-ok, reject-eq-ok,
  wrap-eq-ok, length-drop, wrap, eqb, reject, subst,
}
use nodima_sdk.Message.{validate_message, is_batch_type}
use nodima_sdk.Metadata.{validate_metadata}
use nodima_sdk.Cbor.{Cbor}
use nodima_sdk.Arrow.{Arrow, validate_arrow_record}
use nodima_sdk.Wire.{Reader, read_full}
use nodima_sdk.Transport.Payload.{
  TransportFrame, control, batch, decode_payload, decode_control, decode_batch, take_record,
}
use nodima_sdk.Wire.Bytes.{uint32}
use nodima_sdk.Transport.{decode, kind_byte}

-- A frame that holds a valid control message, or valid metadata and a valid record.
abbrev pub IsFrame : (arrow : Arrow) → TransportFrame arrow.RecordBatch → Type 0
IsFrame arrow (control m) = (validate_message m ≡ ok tt) × (is_batch_type m.type ≡ false)
IsFrame arrow (batch metadata r) =
    (validate_metadata metadata ≡ ok tt) × (validate_arrow_record arrow (some r) ≡ ok tt)

module _ (arrow : Arrow) where
  take_record-ok :
      (found : Result (List arrow.RecordBatch × Option Error)) (r : arrow.RecordBatch)
      → take_record arrow found ≡ ok r
      → validate_arrow_record arrow (some r) ≡ ok tt
  unfolding take_record
  take_record-ok (err x) r e = cc
  take_record-ok (ok ([], some x)) r e = cc
  take_record-ok (ok ([], none)) r e = cc
  take_record-ok (ok (q ∷ (p ∷ more), final)) r e = cc
  take_record-ok (ok (q ∷ [], some x)) r e = cc
  take_record-ok (ok (q ∷ [], none)) r e =
      elim (Result-cases (validate_arrow_record arrow (some q))) [
        | inl (u, p) ↦
            let same : q ≡ r = cc (rw (p, take_record) at e) in
            subst (λ x. validate_arrow_record arrow (some x) ≡ ok tt) same p
        | inr (x, p) ↦ cc (rw (p, take_record) at e)
      ]

module _ (arrow : Arrow) (cbor : Cbor) where
  control-ok :
      (payload : List ℕ) (f : TransportFrame arrow.RecordBatch)
      → decode_control arrow cbor payload ≡ ok f
      → IsFrame arrow f
  unfolding decode_control
  control-ok payload f e =
      let (m, p, e1) = >>=-eq-ok (wrap _ [] (cbor.unmarshal payload)) _ e in
      let (plain, e2) = >>-eq-ok (reject (is_batch_type m.type) _) _ e1 in
      let (valid, e3) = >>-eq-ok (wrap _ [] (validate_message m)) _ e2 in
      let same : control m ≡ f = cc in
      subst (IsFrame arrow) same
        (wrap-eq-ok _ [] (validate_message m) valid, reject-eq-ok _ _ plain)

  batch-ok :
      (payload : List ℕ) (f : TransportFrame arrow.RecordBatch)
      → decode_batch arrow cbor payload ≡ ok f
      → IsFrame arrow f
  unfolding decode_batch
  batch-ok payload (control m) e = ground arith
  batch-ok payload (batch metadata r) e = ground (
    arith,
    take_record-ok arrow (arrow.read_records (drop (4 + uint32 (take 4 payload)) payload)) r,
  )

  payload-ok :
      (kind : ℕ) (payload : List ℕ) (f : TransportFrame arrow.RecordBatch)
      → decode_payload arrow cbor kind payload ≡ ok f
      → IsFrame arrow f
  unfolding decode_payload
  payload-ok kind payload f e = elim (Bool-cases (eqb kind 1)) [
    | inl q ↦ control-ok payload f (rw (q, decode_payload) at e)
    | inr q ↦ batch-ok payload f (rw (q, decode_payload) at e)
  ]

act_cases :
    {S A : Type 0} (p : Result A × S)
    → ((a : A) × (s : S) × (p ≡ (ok a, s))) ⊎ ((e : Error) × (s : S) × (p ≡ (err e, s)))
act_cases (ok a, s) = inl (a, s, refl)
act_cases (err e, s) = inr (e, s, refl)

read_full-consumes : (n : ℕ) (r : Reader) → length r.content ≤ length (read_full n r).1.content + n
unfolding read_full
read_full-consumes n r = ground (arith, length-drop n r.content)

module _ (arrow : Arrow) (cbor : Cbor) (max : ℕ) (r : Reader) where
  -- Whatever bytes arrive, a frame that the decoder returns is a control message that passes
  -- validation and is no batch, or valid batch metadata with a record batch that passes validation.
  pub decode-IsFrame :
      (f : TransportFrame arrow.RecordBatch) → (decode arrow cbor max r).0 ≡ ok f → IsFrame arrow f
  unfolding decode
  decode-IsFrame f h = elim (act_cases (read_full 9 r)) [
    | inr (x, s, p) ↦ ground arith
    | inl (header, s, p) ↦ elim (act_cases (read_full (uint32 (drop 5 header)) s)) [
      | inr (x, s', q) ↦ ground arith
      | inl (payload, s', q) ↦ ground (arith, payload-ok arrow cbor (kind_byte header) payload f)
    ]
  ]

  -- Whatever bytes arrive and however the decoder ends, it takes no more than a header and a
  -- payload of the frame limit from its reader.
  pub decode-bounded : length r.content ≤ length (decode arrow cbor max r).1.content + 9 + max
  unfolding decode
  decode-bounded = elim (act_cases (read_full 9 r)) [
    | inr (x, s, p) ↦ ground (arith, read_full-consumes 9 r)
    | inl (header, s, p) ↦ elim (act_cases (read_full (uint32 (drop 5 header)) s)) [
      | inr (x, s', q) ↦
          ground (arith, read_full-consumes 9 r, read_full-consumes (uint32 (drop 5 header)) s)
      | inl (payload, s', q) ↦
          ground (arith, read_full-consumes 9 r, read_full-consumes (uint32 (drop 5 header)) s)
    ]
  ]
