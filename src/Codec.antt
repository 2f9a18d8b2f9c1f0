-- ===== src/Codec.antt =====
-- runner/v1/codec.go: the length-prefixed CBOR frames of `Encoder` and `Decoder`.
pub mod RoundTrip
mod Tests
use nodima_sdk.Base.{
  ℕ, ◌*◌, ◌%◌, ◌^◌, String, List, [], ◌∷◌, length, Option, some, none, Result, ok, err, errorf,
  wrap, num, reject, ltb, eqb, if◌then◌else◌,
}
use nodima_sdk.Base.Action.{Action, lift, wrapping, ◌>>=◌, ◌>>◌}
use nodima_sdk.Message.{validate_message}
use nodima_sdk.Message.Types.{Message}
use nodima_sdk.Cbor.{Cbor}
use nodima_sdk.Wire.{Reader, Writer, read_full, write_all}
use nodima_sdk.Wire.Bytes.{put_uint32, uint32}

abbrev pub default_max_frame_bytes : ℕ
default_max_frame_bytes = 8 * 2 ^ 20

-- An encoder or a decoder: the stream, the limit and the CBOR mode.
pub record Endpoint (S : Type 0) : Type 0 where
  pub stream : S
  pub max_frame_bytes : ℕ
  pub cbor : Cbor

-- `NewEncoder` and `NewDecoder` over a pointer to the stream, and the result of making the CBOR
-- mode; the texts are those of either.
pub new_endpoint :
    {S : Type 0} → String → String → String → Option S → ℕ → Result Cbor → Result (Endpoint S)
new_endpoint nil_text limit_text mode_text none max mode = err (errorf nil_text [])
new_endpoint nil_text limit_text mode_text (some s) max mode =
    if eqb max 0 then err (errorf limit_text []) else elim (wrap mode_text [] mode) [
      | err e ↦ err e
      | ok c ↦ ok (record { stream = s; max_frame_bytes = max; cbor = c })
    ]

unfoldable pub new_encoder : Option Writer → ℕ → Result Cbor → Result (Endpoint Writer)
unfolding new_endpoint
new_encoder =
    new_endpoint "runner protocol encoder requires a writer"
      "runner protocol encoder requires a positive frame limit" "create CBOR encoding mode: %w"

unfoldable pub new_decoder : Option Reader → ℕ → Result Cbor → Result (Endpoint Reader)
unfolding new_endpoint
new_decoder =
    new_endpoint "runner protocol decoder requires a reader"
      "runner protocol decoder requires a positive frame limit" "create CBOR decoding mode: %w"

-- The two writes of a frame, with the texts of their errors.
abbrev pub write_parts : String → String → List ℕ → List ℕ → Action Writer (Unit {0})
write_parts header_text payload_text header payload = do
  wrapping header_text [] (write_all header)
  wrapping payload_text [] (write_all payload)

module _ (cbor : Cbor) (max_frame_bytes : ℕ) where
  -- `Encoder.Encode`
  pub encode : Message → Action Writer (Unit {0})
  encode m = do
    lift (wrap "validate runner message: %w" [] (validate_message m))
    payload ← lift (wrap "encode runner message: %w" [] (cbor.marshal m))
    lift (
        reject (ltb max_frame_bytes (length payload)) (
          errorf "runner frame is %d bytes, limit is %d"
            (num (length payload) ∷ num max_frame_bytes ∷ [])))
    write_parts "write runner frame header: %w" "write runner frame payload: %w"
        (put_uint32 (length payload % 2 ^ 32)) payload

  -- The end of `Decoder.Decode`, on the payload.
  unfoldable pub parse_payload : List ℕ → Result Message
  parse_payload payload = elim (wrap "decode runner frame: %w" [] (cbor.unmarshal payload)) [
    | err e ↦ err e
    | ok m ↦ elim (wrap "validate runner frame: %w" [] (validate_message m)) [
      | err e ↦ err e
      | ok u ↦ ok m
    ]
  ]

  -- `Decoder.Decode`
  pub decode : Action Reader Message
  decode = do
    header ← read_full 4
    lift (reject (eqb (uint32 header) 0) (errorf "runner frame cannot be empty" []))
    lift (
        reject (ltb max_frame_bytes (uint32 header)) (
          errorf "runner frame declares %d bytes, limit is %d"
            (num (uint32 header) ∷ num max_frame_bytes ∷ [])))
    payload ← wrapping "read runner frame payload: %w" [] (read_full (uint32 header))
    lift (parse_payload payload)
