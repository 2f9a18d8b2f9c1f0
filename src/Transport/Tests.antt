-- ===== src/Transport/Tests.antt =====
-- runner/v1/transport.go: frames through the encoder and the decoder, run on small inputs.
use nodima_sdk.Base.{
  ℕ, some, [], ◌∷◌, ◌++◌, ◌≡◌, ◌≤◌, ◌+◌, ◌↔◌, refl, ok, err, errorf, eof, arith, List, length, ap,
  if◌then◌else◌, leb,
}
use nodima_sdk.Base.Int.{pos}
use nodima_sdk.Message.Types.{Message}
use nodima_sdk.Arrow.{array_length, validate_arrow_record}
use nodima_sdk.Arrow.Valid.{IsRecord, validate_arrow_record_iff}
use nodima_sdk.Wire.{Reader}
use nodima_sdk.Wire.Writing.{Wrote}
use nodima_sdk.Transport.Payload.{TransportFrame, batch, write_limited}
use nodima_sdk.Transport.Payload.Limited.{write_limited_lem}
use nodima_sdk.Transport.{encode_control, encode_batch, decode}
use nodima_sdk.Transport.Frames.{frame}
use nodima_sdk.Transport.Control
use nodima_sdk.Transport.Batches
use nodima_sdk.Transport.Accept.{IsFrame, decode-IsFrame, decode-bounded}
use nodima_sdk.Transport.Samples.{
  hello, done, label, toy, ids, rows, slow, hello-Travels, done-Travels, label-Travels,
}

abbrev both : List (Message × List ℕ)
both = (hello, 7 ∷ (1 ∷ [])) ∷ ((done, 7 ∷ (2 ∷ (2 ∷ []))) ∷ [])

receive-send_all_example :
    (Control.send_all toy 64 both (record { answers = []; sent = [] })
      ≡ (ok tt, record { answers = []; sent = Control.wire_of both }))
    × (Control.receive rows toy 100 2
          (record { content = Control.wire_of both ++ (3 ∷ []); final = eof })
        ≡ (ok (Control.frames_of rows both), record { content = 3 ∷ []; final = eof }))
receive-send_all_example =
    Control.receive-send_all rows toy 64 100 both [] (3 ∷ []) eof
      (hello-Travels, (done-Travels, tt)) (omega arith) (omega arith)

encode_control-Wrote_example : Wrote (frame 1 (7 ∷ (1 ∷ []))) [] (encode_control toy 64 hello slow)
encode_control-Wrote_example = Control.encode_control-Wrote toy 64 hello (7 ∷ (1 ∷ [])) slow refl

abbrev one_batch : List ℕ
one_batch = frame 2 (Batches.batch_payload (7 ∷ (3 ∷ [])) (8 ∷ (9 ∷ (5 ∷ []))))

decode-encode_batch_example :
    (encode_batch rows toy 64 label (some ids) (record { answers = []; sent = [] })
      ≡ (ok tt, record { answers = []; sent = one_batch }))
    × (decode rows toy 100 (record { content = one_batch ++ (3 ∷ []); final = eof })
        ≡ (ok (batch label ids), record { content = 3 ∷ []; final = eof }))
decode-encode_batch_example =
    Batches.decode-encode_batch rows toy 64 label ids (7 ∷ (3 ∷ [])) (8 ∷ (9 ∷ (5 ∷ [])))
      label-Travels 100 [] (3 ∷ []) eof (omega arith) (omega arith)

abbrev arriving : Reader
arriving = record { content = one_batch ++ (3 ∷ []); final = eof }

abbrev decoded : TransportFrame rows.RecordBatch
decoded = batch label ids

arriving-decoded : (decode rows toy 100 arriving).0 ≡ ok decoded
arriving-decoded =
    ap (λ p. p.0)
      (Batches.decode-encode_batch rows toy 64 label ids (7 ∷ (3 ∷ [])) (8 ∷ (9 ∷ (5 ∷ [])))
        label-Travels 100 [] (3 ∷ []) eof (omega arith) (omega arith)).1

decode-IsFrame_example : IsFrame rows decoded
decode-IsFrame_example = decode-IsFrame rows toy 100 arriving decoded arriving-decoded

decode-bounded_example :
    length arriving.content ≤ length (decode rows toy 100 arriving).1.content + 9 + 100
decode-bounded_example = decode-bounded rows toy 100 arriving

write_limited_lem_example : write_limited 3 [] ((8 ∷ (9 ∷ [])) ∷ ((5 ∷ []) ∷ [])) ≡ (
    if leb 3 3
    then ok (8 ∷ (9 ∷ (5 ∷ [])))
    else err (errorf "Arrow IPC payload exceeds runner frame limit" []))
write_limited_lem_example = write_limited_lem 3 [] ((8 ∷ (9 ∷ [])) ∷ ((5 ∷ []) ∷ []))

validate_arrow_record_iff_example :
    (validate_arrow_record rows (some ids) ≡ ok tt) ↔ IsRecord (pos 2) (pos 1) ids
unfolding array_length
validate_arrow_record_iff_example = validate_arrow_record_iff rows ids
