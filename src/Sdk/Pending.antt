-- ===== src/Sdk/Pending.antt =====
-- go/sdk.go: the messages that wait for the runner, over any sequence of calls.
use nodima_sdk.Base.{
  ℕ, suc, String, Bool, false, not, ◌==◌, ◌&&◌, if◌then◌else◌, List, [], ◌∷◌, ◌++◌, ◌≡◌, refl,
  Result, ok, err, arith, ap, sym, ◌∙◌,
}
use mathlib.Core.List.{append_assoc}
use nodima_sdk.Base.Action.{Action}
use nodima_sdk.Capability.{CapabilityRequest}
use nodima_sdk.Message.{is_capability_response}
use nodima_sdk.Message.Types.{Message}
use nodima_sdk.Sdk
use nodima_sdk.Sdk.Requests.{request_id}

-- A message for the runner: no answer to a request, and not the mark that ends all input.
abbrev pub is_for_runner : Message → Bool
is_for_runner m =
    not (is_capability_response m.type) && not (Sdk.is_input_end m.type && m.port_id == "")

unfoldable pub inputs : List Message → List Message
inputs [] = []
inputs (m ∷ rest) = let more = inputs rest in if is_for_runner m then m ∷ more else more

unfoldable pub messages : List (Result Message) → List Message
messages [] = []
messages (ok m ∷ rest) = m ∷ messages rest
messages (err e ∷ rest) = messages rest

inputs-append : (xs ys : List Message) → inputs (xs ++ ys) ≡ inputs xs ++ inputs ys
unfolding inputs
inputs-append [] ys = refl
inputs-append (x ∷ xs) ys = let ih = inputs-append xs ys in ground arith

abbrev pub waiting : List (Result Message) → List Message → List Message
waiting incoming buffered = inputs buffered ++ inputs (messages incoming)

waiting-buffer :
    (m : Message) (rest : List (Result Message)) (buffered : List Message)
    → waiting rest (buffered ++ (m ∷ [])) ≡ waiting (ok m ∷ rest) buffered
unfolding messages
waiting-buffer m rest buffered =
    ap (λ l. l ++ inputs (messages rest)) (inputs-append buffered (m ∷ []))
    ∙ append_assoc (inputs buffered) (inputs (m ∷ [])) (inputs (messages rest))
    ∙ ap (λ l. inputs buffered ++ l) (sym (inputs-append (m ∷ []) (messages rest)))

waiting-skip :
    (m : Message) (rest : List (Result Message)) (buffered : List Message)
    → is_for_runner m ≡ false
    → waiting rest buffered ≡ waiting (ok m ∷ rest) buffered
unfolding inputs messages
waiting-skip m rest buffered h = rw h

waiting-await_response :
    (ctx : Sdk.Context) (k : ℕ) (id : String) (incoming : List (Result Message))
    (buffered : List Message)
    → (let inbox = (Sdk.await_response ctx k id incoming buffered).1 in
        waiting inbox.incoming inbox.buffered)
      ≡ waiting incoming buffered
unfolding Sdk.await_response messages
waiting-await_response ctx k id [] buffered = ground arith
waiting-await_response ctx k id (err x ∷ rest) buffered = ground arith
waiting-await_response ctx k id (ok m ∷ rest) buffered =
    let ih = waiting-await_response ctx (suc k) id rest (buffered ++ (m ∷ [])) in
    ground (arith, waiting-buffer m rest buffered, waiting-skip m rest buffered)

module _ {Out : Type 0} (encode_message : Message → Action Out (Unit {0})) where
  abbrev pub pending : Sdk.Session Out → List Message
  pending s = waiting s.incoming s.buffered

  pending-await :
      (ctx : Sdk.Context) (id : String) (s : Sdk.Session Out)
      → pending (Sdk.await Out encode_message ctx id s).1 ≡ pending s
  unfolding Sdk.await
  pending-await ctx id s = waiting-await_response ctx 1 id s.incoming s.buffered

  pending-send :
      (m : Message) (s : Sdk.Session Out) → pending (Sdk.send Out encode_message m s).1 ≡ pending s
  unfolding Sdk.send
  pending-send m s = refl

  pub pending-capability :
      (ctx : Sdk.Context) (r : CapabilityRequest) (s : Sdk.Session Out)
      → pending (Sdk.capability Out encode_message ctx r s).1 ≡ pending s
  unfolding Sdk.capability
  pending-capability ctx r s =
      let counted = Sdk.count_request Out encode_message s in
      let id = request_id counted.next_request_id in
      let m = Sdk.request_message Out encode_message counted (record r { id = id }) in
      let sent = (Sdk.send Out encode_message m counted).1 in
      ground (arith, pending-await ctx id sent, pending-send m counted)

  -- The message that a call of `Next` hands out.
  abbrev pub handed_out : Result Message → List Message
  handed_out (ok m) = m ∷ []
  handed_out (err e) = []

  pub pending-next_input :
      (s : Sdk.Session Out)
      → (let (r, s') = Sdk.next_input Out encode_message s in handed_out r ++ pending s')
        ≡ pending s
  unfolding Sdk.next_input Sdk.take_message Sdk.interpret inputs messages
  pending-next_input s = ground arith

  -- What a runner and its wrapper do to the session.
  pub data Call : Type 0 where
    read : Sdk.Context → Call
    write : Sdk.Context → Message → Call
    request : Sdk.Context → CapabilityRequest → Call
    name : String → String → Call
    report : String → String → Call

  -- One call: the message it hands out, and the session after it.
  unfoldable pub perform : Call → Sdk.Session Out → List Message × Sdk.Session Out
  perform (read ctx) s = let (r, s') = Sdk.next Out encode_message ctx s in (handed_out r, s')
  perform (write ctx m) s = ([], (Sdk.emit Out encode_message ctx m s).1)
  perform (request ctx r) s = ([], (Sdk.capability Out encode_message ctx r s).1)
  perform (name execution_id node_id) s =
      ([], Sdk.identify Out encode_message execution_id node_id s)
  perform (report code text) s = ([], (Sdk.fail Out encode_message code text s).1)

  unfoldable pub perform_all : List Call → Sdk.Session Out → List Message × Sdk.Session Out
  perform_all [] s = ([], s)
  perform_all (c ∷ cs) s =
      let (seen, s') = perform c s in let (later, end) = perform_all cs s' in (seen ++ later, end)

  pending-perform :
      (c : Call) (s : Sdk.Session Out)
      → (let (seen, s') = perform c s in seen ++ pending s') ≡ pending s
  unfolding perform Sdk.next Sdk.emit Sdk.identify Sdk.fail Sdk.send
  pending-perform (read ctx) s = ground (arith, pending-next_input s)
  pending-perform (write ctx m) s = ground (arith, pending-send m s)
  pending-perform (request ctx r) s = pending-capability ctx r s
  pending-perform (name e n) s = refl
  pending-perform (report c t) s = refl

  -- Over any sequence of reads, writes, capability calls, identifications and failure reports, with
  -- whatever contexts, encoder and incoming stream: the messages handed out, in order, followed by
  -- those still pending at the end, are those that were pending at the start. So no call loses,
  -- repeats or reorders a message for the runner.
  pub pending-perform_all :
      (cs : List Call) (s : Sdk.Session Out)
      → (let (seen, s') = perform_all cs s in seen ++ pending s') ≡ pending s
  unfolding perform_all
  pending-perform_all [] s = refl
  pending-perform_all (c ∷ cs) s =
      let (seen, t) = perform c s in
      let (later, end) = perform_all cs t in
      append_assoc seen later (pending end)
      ∙ ap (λ l. seen ++ l) (pending-perform_all cs t)
      ∙ pending-perform c s
