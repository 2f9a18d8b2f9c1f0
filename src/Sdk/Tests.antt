-- ===== src/Sdk/Tests.antt =====
-- go/sdk.go: capability calls and inputs, run on a small stream.
use nodima_sdk.Base.{
  external, ◌+◌, ◌%◌, ◌^◌, some, none, [], ◌∷◌, ◌++◌, ◌≡◌, ◌≢◌, ◌⊎◌, refl, ok, err, panic, List,
}
use nodima_sdk.Base.Action.{Action}
use nodima_sdk.Base.Int.{pos}
use nodima_sdk.Capability.{
  http, secret, HttpRequest, HttpResponse, CapabilityRequest, CapabilityResponse, validate_response,
  validate_kind, check_error, check_http_response,
}
use nodima_sdk.Message.Types.{Message, input_end, capability_response, new_message}
use nodima_sdk.Sdk
use nodima_sdk.Sdk.Requests.{request_id, empty_request}
use nodima_sdk.Sdk.Pending.{pending, read, request, perform, perform_all, pending-perform_all}
use nodima_sdk.Sdk.Refusals.{capability_counts}
use nodima_sdk.Sdk.Awaiting.{Found}
use nodima_sdk.Sdk.Replies.{
  IsIdentified, next_message, capability-reply, capability-answered, call_http-answered,
}

-- An encoder that records what it is given.
abbrev keep : Message → Action (List Message) (Unit {0})
keep m out = (ok tt, out ++ (m ∷ []))

abbrev get : HttpRequest
get = record { method = "GET"; url = "https://a.example"; headers = []; body = [] }

abbrev answer : CapabilityResponse
answer = record {
  id = "cap-1";
  kind = http;
  http_response =
      some (record {
        status_code = pos 200;
        headers = [];
        body = [];
        final_url = "https://a.example";
      });
  file_read_response = none;
  file_write_response = none;
  scratch_response = none;
  secret_response = none;
  error = none;
}

-- Under the ID of an HTTP request, the response to a request for a secret.
abbrev stray : CapabilityResponse
stray = record answer {
  kind = secret;
  http_response = none;
  secret_response = some (record { value = "s" });
}

abbrev carrying : CapabilityResponse → Message
carrying r = record (new_message capability_response) { capability_response = some r }

abbrev port_end : Message
port_end = record (new_message input_end) { port_id = "in" }

-- A session that has its identity, with an input before the response.
abbrev waiting : CapabilityResponse → Sdk.Session (List Message)
waiting r = record {
  encoder = [];
  incoming = ok port_end ∷ (ok (carrying r) ∷ []);
  buffered = [];
  execution_id = "run";
  node_id = "n";
  next_request_id = 0;
}

abbrev live : Sdk.Context
live k = none

abbrev ask : CapabilityRequest
ask = record (empty_request http) { http_request = some get }

named : IsIdentified keep (waiting answer)
named = (λ p. cc p, λ p. cc p)

first_id : request_id 1 ≡ "cap-1"
unfolding request_id
first_id = refl

abbrev reply : Sdk.Session (List Message)
reply = record (waiting answer) {
  encoder = next_message keep ask (waiting answer) ∷ [];
  incoming = [];
  buffered = port_end ∷ [];
  next_request_id = 1;
}

answered : Sdk.capability (List Message) keep live ask (waiting answer) ≡ (ok answer, reply)
unfolding Sdk.capability Sdk.await Sdk.await_response Sdk.check_response Sdk.send request_id
answered = refl

pending-perform_all_example :
    (let (seen, s) = perform_all keep (request live ask ∷ (read live ∷ [])) (waiting answer) in
      seen ++ pending keep s)
    ≡ pending keep (waiting answer)
pending-perform_all_example =
    pending-perform_all keep (request live ask ∷ (read live ∷ [])) (waiting answer)

handed_out-in_order :
    (perform_all keep (request live ask ∷ (read live ∷ [])) (waiting answer)).0 ≡ port_end ∷ []
unfolding perform_all perform Sdk.capability Sdk.await Sdk.await_response Sdk.check_response
    Sdk.send Sdk.next Sdk.next_input Sdk.take_message Sdk.interpret request_id
handed_out-in_order = refl

capability-reply_example :
    IsIdentified keep (waiting answer)
    × (keep (next_message keep ask (waiting answer)) [] ≡ (ok tt, reply.encoder))
    × Found "cap-1" answer
        (waiting answer).incoming
        []
        (record { incoming = []; buffered = port_end ∷ [] })
unfolding request_id
capability-reply_example = capability-reply keep live ask (waiting answer) reply answer answered

capability-answered_example : Sdk.capability (List Message) keep live ask (waiting stray) ≡ (
  Sdk.check_response "cap-1" (some stray),
  record reply { encoder = next_message keep ask (waiting stray) ∷ [] },
)
unfolding request_id
capability-answered_example =
    capability-answered keep live ask (waiting stray) (next_message keep ask (waiting stray) ∷ [])
      (port_end ∷ []) (carrying stray) [] (λ k. refl) named refl refl (refl, tt) refl

stray-valid : validate_response stray ≡ ok tt
unfolding validate_response validate_kind check_error check_http_response
stray-valid = refl

call_http-answered_example :
    ((stray.kind ≡ http)
      × (a : HttpResponse) × (stray.http_response ≡ some a)
      × ((Sdk.call_http (List Message) keep live get (waiting stray)).0 ≡ ok a))
    ⊎ ((stray.kind ≢ http)
        × ((Sdk.call_http (List Message) keep live get (waiting stray)).0 ≡ err panic))
unfolding request_id
call_http-answered_example =
    call_http-answered keep live get (waiting stray) (next_message keep ask (waiting stray) ∷ [])
      (port_end ∷ []) (carrying stray) [] stray (λ k. refl) named refl refl (refl, tt)
      (refl, refl, refl, refl) stray-valid

stray-panics : (Sdk.call_http (List Message) keep live get (waiting stray)).0 ≡ err panic
unfolding Sdk.call_http Sdk.capability Sdk.await Sdk.await_response Sdk.check_response Sdk.send
    request_id
stray-panics = refl

abbrev closed : Sdk.Context
closed k = some (external "context canceled")

closed-refused :
    (Sdk.next (List Message) keep closed (waiting answer)
      ≡ (err (external "context canceled"), waiting answer))
    × (Sdk.emit (List Message) keep closed port_end (waiting answer)
        ≡ (err (external "context canceled"), waiting answer))
unfolding Sdk.next Sdk.emit
closed-refused = (refl, refl)

capability_counts_example :
    (let t = (Sdk.capability (List Message) keep live ask (waiting answer)).1 in
      (((live 0 ≢ none) ⊎ (((waiting answer).execution_id ≡ "") ⊎ ((waiting answer).node_id ≡ "")))
        × (t ≡ waiting answer))
      ⊎ ((live 0 ≡ none)
          × ((waiting answer).execution_id ≢ "")
          × ((waiting answer).node_id ≢ "")
          × (t.next_request_id ≡ ((waiting answer).next_request_id + 1) % 2 ^ 64)
          × (t.execution_id ≡ (waiting answer).execution_id)
          × (t.node_id ≡ (waiting answer).node_id)))
capability_counts_example = capability_counts keep live ask (waiting answer)
