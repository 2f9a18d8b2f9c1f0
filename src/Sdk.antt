-- ===== src/Sdk.antt =====
-- go/sdk.go: the protocol session of a guest. The encoder's lock and the decoder's guard
-- different fields, so a run is taken as a sequence of operations on one state.
--
-- `incoming` is what the next calls of `DecodeMessage` return; behind it the stream is at its end.
-- `encode_message` is `EncodeMessage`, an action on the encoder's state. `ctx k` is what the k-th
-- call of `ctx.Err()` in an operation returns.
pub mod Requests
pub mod Pending
pub mod Awaiting
pub mod Replies
pub mod Refusals
mod Tests
use nodima_sdk.Base.{
  ℕ, suc, ◌+◌, ◌%◌, ◌^◌, String, Bool, true, false, Option, some, none, List, [], ◌∷◌, ◌++◌, Result,
  ok, err, Error, eof, panic, errorf, str, reject, ◌==◌, ◌||◌, ◌&&◌, not, if◌then◌else◌,
}
use nodima_sdk.Base.Action.{Action, lift, ◌>>=◌, ◌>>◌}
use nodima_sdk.Capability.{
  Capability, http, file_read, file_write, scratch, secret, Failure, CapabilityRequest,
  CapabilityResponse, HttpRequest, HttpResponse, FileReadRequest, FileReadResponse,
  FileWriteRequest, FileWriteResponse, ScratchRequest, ScratchResponse, SecretRequest,
  SecretResponse,
}
use nodima_sdk.Message.{is_capability_response}
use nodima_sdk.Message.Types.{
  MessageType, Message, initialize, input_end, stop_input, failed, capability_request, new_message,
}
use nodima_sdk.Sdk.Requests.{empty_request, request_id}

-- `protocolSession`
pub record Session (Out : Type 0) : Type 0 where
  pub encoder : Out
  pub incoming : List (Result Message)
  pub buffered : List Message
  pub execution_id : String
  pub node_id : String
  pub next_request_id : ℕ

abbrev pub Context : Type 0
Context = ℕ → Option Error

-- `if err := ctx.Err(); err != nil { return err }`
abbrev pub check_context : Option Error → Result (Unit {0})
check_context none = ok tt
check_context (some e) = err e

abbrev is_input_end : MessageType → Bool
is_input_end input_end = true
is_input_end _ = false

abbrev is_initialize : MessageType → Bool
is_initialize initialize = true
is_initialize _ = false

-- What `await_response` leaves: the answers that are still to come, and the buffer.
pub record Inbox : Type 0 where
  pub incoming : List (Result Message)
  pub buffered : List Message

-- The response of an incoming message, `*incoming.CapabilityResponse`, checked against the request.
unfoldable pub check_response : String → Option CapabilityResponse → Result CapabilityResponse
check_response id none = err panic
check_response id (some r) =
    if not (r.id == id)
    then err
        (errorf "received capability response %q while waiting for %q" (str r.id ∷ (str id ∷ [])))
    else elim r.error [
      | some e ↦ err (errorf "%s: %s" (str e.code ∷ (str e.message ∷ [])))
      | none ↦ ok r
    ]

-- The loop of `capability`, from the k-th check of the context on.
unfoldable pub await_response :
    Context → ℕ → String → List (Result Message) → List Message → Result CapabilityResponse × Inbox
await_response ctx k id [] buffered = elim (ctx k) [
  | some e ↦ (err e, record { incoming = []; buffered = buffered })
  | none ↦ (err eof, record { incoming = []; buffered = buffered })
]
await_response ctx k id (err x ∷ rest) buffered = elim (ctx k) [
  | some e ↦ (err e, record { incoming = err x ∷ rest; buffered = buffered })
  | none ↦ (err x, record { incoming = rest; buffered = buffered })
]
await_response ctx k id (ok m ∷ rest) buffered =
    let more = await_response ctx (suc k) id rest (buffered ++ (m ∷ [])) in
    elim (ctx k) [
      | some e ↦ (err e, record { incoming = ok m ∷ rest; buffered = buffered })
      | none ↦
          if is_capability_response m.type
          then (
            check_response id m.capability_response,
            record { incoming = rest; buffered = buffered },
          )
          else more
    ]

module _ (Out : Type 0) (encode_message : Message → Action Out (Unit {0})) where
  -- The message that `nextInput` looks at: the head of the buffer, or the next one decoded.
  unfoldable pub take_message :
      Session Out → List Message → List (Result Message) → Result Message × Session Out
  take_message s (m ∷ rest) incoming = (ok m, record s { buffered = rest })
  take_message s [] [] = (err eof, s)
  take_message s [] (r ∷ rest) = (r, record s { incoming = rest })

  -- What `nextInput` makes of the message.
  unfoldable pub interpret : Message → Action (Session Out) Message
  interpret m s =
      if is_capability_response m.type
      then (err (errorf "received an unsolicited capability response" []), s)
      else if is_input_end m.type && m.port_id == ""
      then (err eof, s)
      else if is_initialize m.type
      then (ok m, record s { execution_id = m.execution_id; node_id = m.node_id })
      else (ok m, s)

  -- `nextInput`
  unfoldable pub next_input : Action (Session Out) Message
  next_input = (λ s. take_message s s.buffered s.incoming) >>= interpret

  -- `protocolInput.Next`
  unfoldable pub next : Context → Action (Session Out) Message
  next ctx = lift (check_context (ctx 0)) >>= λ u. next_input

  -- `send`
  unfoldable pub send : Message → Action (Session Out) (Unit {0})
  send m s = let (r, out) = encode_message m s.encoder in (r, record s { encoder = out })

  -- `protocolOutput.Emit`
  unfoldable pub emit : Context → Message → Action (Session Out) (Unit {0})
  emit ctx m = lift (check_context (ctx 0)) >>= λ u. send m

  -- `StopInput`
  unfoldable pub stop_input_port :
      Context → String → String → String → Action (Session Out) (Unit {0})
  stop_input_port ctx execution_id node_id port_id = emit ctx (record (new_message stop_input) {
    execution_id = execution_id;
    node_id = node_id;
    port_id = port_id;
  })

  -- The message that carries a request.
  abbrev pub request_message : Session Out → CapabilityRequest → Message
  request_message s r = record (new_message capability_request) {
    execution_id = s.execution_id;
    node_id = s.node_id;
    capability_request = some r;
  }

  -- `s.nextRequestID++`, a uint64.
  abbrev pub count_request : Session Out → Session Out
  count_request s = record s { next_request_id = (s.next_request_id + 1) % 2 ^ 64 }

  unfoldable pub await : Context → String → Action (Session Out) CapabilityResponse
  await ctx id s =
      let (r, inbox) = await_response ctx 1 id s.incoming s.buffered in
      (r, record s { incoming = inbox.incoming; buffered = inbox.buffered })

  -- `capability`
  unfoldable pub capability : Context → CapabilityRequest → Action (Session Out) CapabilityResponse
  capability ctx request s =
      (lift (check_context (ctx 0)) >>= λ u.
      lift (
        reject (s.execution_id == "" || s.node_id == "")
          (errorf "capability request requires an initialize message first" []))
      >>= λ u. (λ s. (ok tt, count_request s)) >>= λ (u : Unit {0}). λ s.
        (let id = request_id s.next_request_id in
            send (request_message s (record request { id = id })) >>= λ u. await ctx id)
          s)
        s

  -- `*response.HTTP` and the like.
  abbrev pub payload_of {ℓ} : {A : Type ℓ} → Option A → Result A
  payload_of none = err panic
  payload_of (some a) = ok a

  -- `HTTP`, `FileRead`, `FileWrite`, `Scratch` and `Secret`
  unfoldable pub call_http : Context → HttpRequest → Action (Session Out) HttpResponse
  call_http ctx r = capability ctx (record (empty_request http) { http_request = some r }) >>= λ a.
      lift (payload_of a.http_response)

  unfoldable pub call_file_read : Context → FileReadRequest → Action (Session Out) FileReadResponse
  call_file_read ctx r =
      capability ctx (record (empty_request file_read) { file_read_request = some r }) >>= λ a.
      lift (payload_of a.file_read_response)

  unfoldable pub call_file_write :
      Context → FileWriteRequest → Action (Session Out) FileWriteResponse
  call_file_write ctx r =
      capability ctx (record (empty_request file_write) { file_write_request = some r }) >>= λ a.
      lift (payload_of a.file_write_response)

  unfoldable pub call_scratch : Context → ScratchRequest → Action (Session Out) ScratchResponse
  call_scratch ctx r =
      capability ctx (record (empty_request scratch) { scratch_request = some r }) >>= λ a.
      lift (payload_of a.scratch_response)

  unfoldable pub call_secret : Context → SecretRequest → Action (Session Out) SecretResponse
  call_secret ctx r =
      capability ctx (record (empty_request secret) { secret_request = some r }) >>= λ a.
      lift (payload_of a.secret_response)

  -- `Session.Identify`
  unfoldable pub identify : String → String → Session Out → Session Out
  identify execution_id node_id s = record s { execution_id = execution_id; node_id = node_id }

  -- `Session.Fail`, on the text of the error.
  unfoldable pub fail : String → String → Action (Session Out) (Unit {0})
  fail code text s =
      send
        (record (new_message failed) {
          execution_id = s.execution_id;
          node_id = s.node_id;
          error = some (record { code = code; message = text });
        })
        s

  -- `Session.Decode`: the next message, past the buffer and with no interpretation.
  unfoldable pub decode_next : Action (Session Out) Message
  decode_next s = take_message s [] s.incoming
