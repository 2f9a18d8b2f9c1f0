-- ===== src/Sdk/Replies.antt =====
-- go/sdk.go: which response a capability call returns, and when it does.
use nodima_sdk.Base.{
  ◌+◌, ◌%◌, ◌^◌, String, true, none, some, List, ◌∷◌, ◌++◌, ◌≡◌, ◌≢◌, refl, Result, ok, err, panic,
  arith, inl, inr, sym, subst, eq_iff, All, map, ◌⊎◌,
}
use nodima_sdk.Base.Action.{Action}
use nodima_sdk.Capability.{
  CapabilityRequest, CapabilityResponse, HttpRequest, HttpResponse, http, validate_response,
}
use nodima_sdk.Capability.Response.{
  Answer, http_answer, file_read_answer, file_write_answer, scratch_answer, secret_answer, failure,
  answer_wire, validate_response_iff,
}
use nodima_sdk.Message.{is_capability_response}
use nodima_sdk.Message.Types.{Message}
use nodima_sdk.Sdk
use nodima_sdk.Sdk.Requests.{request_id, empty_request}
use nodima_sdk.Sdk.Awaiting.{
  IsInput, IsAnswer, Found, IsOpen, await_response-Found, await_response-first,
}

-- A response that was accepted, without an error, has an HTTP result exactly when its kind says so.
http_response_cases :
    (r : CapabilityResponse)
    → validate_response r ≡ ok tt
    → r.error ≡ none
    → ((r.kind ≡ http) × (a : HttpResponse) × (r.http_response ≡ some a))
      ⊎ ((r.kind ≢ http) × (r.http_response ≡ none))
http_response_cases r v free =
    let (n, a, e, c) = (validate_response_iff r).0 v in
    subst
      (λ q.
        q.error ≡ none
        → ((q.kind ≡ http) × (a : HttpResponse) × (q.http_response ≡ some a))
          ⊎ ((q.kind ≢ http) × (q.http_response ≡ none)))
      (sym e) (of_answer r.id a) free
  where
    of_answer :
        (id : String) (a : Answer)
        → (answer_wire id a).error ≡ none
        → (((answer_wire id a).kind ≡ http)
            × (h : HttpResponse) × ((answer_wire id a).http_response ≡ some h))
          ⊎ (((answer_wire id a).kind ≢ http) × ((answer_wire id a).http_response ≡ none))
    of_answer id (http_answer h) f = inl (refl, h, refl)
    of_answer id (file_read_answer h) f = inr (λ p. cc p, refl)
    of_answer id (file_write_answer h) f = inr (λ p. cc p, refl)
    of_answer id (scratch_answer h) f = inr (λ p. cc p, refl)
    of_answer id (secret_answer h) f = inr (λ p. cc p, refl)
    of_answer id (failure k e) f = cc f

module _ {Out : Type 0} (encode_message : Message → Action Out (Unit {0})) where
  -- The ID of the next request.
  abbrev pub next_id : Sdk.Session Out → String
  next_id s = request_id ((s.next_request_id + 1) % 2 ^ 64)

  -- The message that the next request is sent in.
  abbrev pub next_message : CapabilityRequest → Sdk.Session Out → Message
  next_message q s = Sdk.request_message Out encode_message s (record q { id = next_id s })

  abbrev pub IsIdentified : Sdk.Session Out → Type 0
  IsIdentified s = (s.execution_id ≢ "") × (s.node_id ≢ "")

  -- A capability call that returns a response was made under an identity and has sent its request,
  -- and the response is the first one that arrived: it has the request's ID and no error, and the
  -- messages before it are now behind the buffer, in order, while those after it are still to come.
  pub capability-reply :
      (ctx : Sdk.Context) (q : CapabilityRequest) (s t : Sdk.Session Out) (r : CapabilityResponse)
      → Sdk.capability Out encode_message ctx q s ≡ (ok r, t)
      → IsIdentified s
        × (encode_message (next_message q s) s.encoder ≡ (ok tt, t.encoder))
        × Found
            (next_id s)
            r
            s.incoming
            s.buffered
            (record { incoming = t.incoming; buffered = t.buffered })
  unfolding Sdk.capability Sdk.await Sdk.send
  capability-reply ctx q s t r h =
      let inbox : Sdk.Inbox = record { incoming = t.incoming; buffered = t.buffered } in
      (
        ground (arith, eq_iff s.execution_id "", eq_iff s.node_id ""),
        ground arith,
        await_response-Found ctx 1 (next_id s) s.incoming s.buffered r inbox (ground arith),
      )

  -- When a response stands among the incoming messages, and the context stays open, the session has
  -- an identity and the request is sent, a capability call ends: with the outcome of checking that
  -- response's ID and error, the messages before it buffered, and one more request counted.
  pub capability-answered :
      (ctx : Sdk.Context) (q : CapabilityRequest) (s : Sdk.Session Out) (out : Out)
      (front : List Message) (m : Message) (rest : List (Result Message))
      → IsOpen ctx
      → IsIdentified s
      → encode_message (next_message q s) s.encoder ≡ (ok tt, out)
      → s.incoming ≡ map ok front ++ (ok m ∷ rest)
      → All IsInput front
      → is_capability_response m.type ≡ true
      → Sdk.capability Out encode_message ctx q s ≡ (
        Sdk.check_response (next_id s) m.capability_response,
        record s {
          encoder = out;
          incoming = rest;
          buffered = s.buffered ++ front;
          next_request_id = (s.next_request_id + 1) % 2 ^ 64;
        },
      )
  unfolding Sdk.capability Sdk.await Sdk.send
  capability-answered ctx q s out front m rest live named sent split all t =
      let found = await_response-first ctx 1 (next_id s) front m rest s.buffered live all t in
      ground (arith, live 0, eq_iff s.execution_id "", eq_iff s.node_id "")

  -- Under the same conditions, when the response has the request's ID, no error and passes
  -- validation, an HTTP call returns the HTTP result if the response is of kind HTTP, and ends in a
  -- nil dereference if it is of another kind.
  pub call_http-answered :
      (ctx : Sdk.Context) (h : HttpRequest) (s : Sdk.Session Out) (out : Out) (front : List Message)
      (m : Message) (rest : List (Result Message)) (r : CapabilityResponse)
      → IsOpen ctx
      → IsIdentified s
      → encode_message
          (next_message (record (empty_request http) { http_request = some h }) s)
          s.encoder
        ≡ (ok tt, out)
      → s.incoming ≡ map ok front ++ (ok m ∷ rest)
      → All IsInput front
      → IsAnswer (next_id s) m r
      → validate_response r ≡ ok tt
      → ((r.kind ≡ http)
          × (a : HttpResponse) × (r.http_response ≡ some a)
          × ((Sdk.call_http Out encode_message ctx h s).0 ≡ ok a))
        ⊎ ((r.kind ≢ http) × ((Sdk.call_http Out encode_message ctx h s).0 ≡ err panic))
  unfolding Sdk.call_http Sdk.check_response
  call_http-answered ctx h s out front m rest r live named sent split all (t, o, i, free) v =
      let got =
        capability-answered ctx (record (empty_request http) { http_request = some h }) s out front
          m rest live named sent split all t in
      elim (http_response_cases r v free) [
        | inl (k, a, p) ↦ inl (k, a, p, ground (arith, eq_iff r.id (next_id s)))
        | inr (k, p) ↦ inr (k, ground (arith, eq_iff r.id (next_id s)))
      ]
