-- ===== src/Codec/Tests.antt =====
-- runner/v1/codec.go: one frame through the encoder and the decoder.
use nodima_sdk.Base.{some, [], ◌∷◌, ◌++◌, ◌≡◌, refl, ok, err, eof, external, arith}
use nodima_sdk.Base.Int.{pos}
use nodima_sdk.Message.{validate_message, validate_placement}
use nodima_sdk.Message.Types.{Message, ready, new_message}
use nodima_sdk.Message.Content.{validate_content}
use nodima_sdk.Cbor.{Cbor}
use nodima_sdk.Wire.Writing.{Wrote}
use nodima_sdk.Codec.{encode, decode, default_max_frame_bytes}
use nodima_sdk.Codec.RoundTrip.{frame, encode-Wrote, decode-encode}

abbrev hello : Message
hello = record (new_message ready) { execution_id = "run"; node_id = "n" }

-- A coding of this one message in two bytes.
abbrev toy : Cbor
toy = record {
  marshal = λ m. ok (7 ∷ (1 ∷ []));
  unmarshal = λ bytes. ok hello;
  marshal_metadata = λ m. err (external "no metadata");
  unmarshal_metadata = λ bytes. err (external "no metadata");
}

hello-valid : validate_message hello ≡ ok tt
unfolding validate_message validate_placement validate_content
hello-valid = refl

encode-Wrote_example : Wrote (frame (7 ∷ (1 ∷ []))) [] (
    encode toy 64 hello
      (record { answers = record { count = pos 1; failure = some eof } ∷ []; sent = [] }))
encode-Wrote_example =
    encode-Wrote toy 64 hello (7 ∷ (1 ∷ [])) refl
      (record { answers = record { count = pos 1; failure = some eof } ∷ []; sent = [] })

decode-encode_example :
    (encode toy 64 hello (record { answers = []; sent = [] })
      ≡ (ok tt, record { answers = []; sent = frame (7 ∷ (1 ∷ [])) }))
    × (decode toy default_max_frame_bytes
          (record { content = frame (7 ∷ (1 ∷ [])) ++ (5 ∷ []); final = eof })
        ≡ (ok hello, record { content = 5 ∷ []; final = eof }))
decode-encode_example =
    decode-encode toy 64 default_max_frame_bytes hello (7 ∷ (1 ∷ [])) [] (5 ∷ []) eof hello-valid
      refl refl (omega arith) (omega arith) (omega arith) (omega arith)
