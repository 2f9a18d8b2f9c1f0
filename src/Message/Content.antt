-- ===== src/Message/Content.antt =====
-- runner/v1/message.go: the switch of `Message.Validate`, and `HostResources.Validate`.
use nodima_sdk.Base.{
  String, Option, none, some, [], ◌∷◌, Check, ok, err, errorf, wrap, str, reject, ◌>>◌, ◌==◌, ◌||◌,
  ◌&&◌, eqb, ltb,
}
use nodima_sdk.Capability.{Failure, validate_request, validate_response}
use nodima_sdk.Batch.{Batch, validate_batch}
use nodima_sdk.Session.{SessionCompleted, EdgeStats}
use nodima_sdk.Session.Start.{validate_start}
use nodima_sdk.Session.Connect.{validate_connect}
use nodima_sdk.Session.Preview.{validate_preview}
use nodima_sdk.Session.Credits.{validate_credit, validate_ready}
use nodima_sdk.Message.Types.{
  MessageType, initialize, ready, input_batch, output_batch, input_end, stop_input, completed,
  failed, log, progress, host_resources, batch_complete, capability_request, capability_response,
  session_start, session_ready, session_connect, session_connected, session_run, session_completed,
  edge_stats, cancel, credit, other, Message, MemoryResources, HostResources, Log, type_text,
}

validate_memory : Option MemoryResources → Check
validate_memory none = err (errorf "host resources message requires memory content" [])
validate_memory (some r) = do
  reject (eqb r.total_bytes 0) (errorf "host resources memory total must be positive" [])
  reject (ltb r.total_bytes r.used_bytes) (errorf "host resources memory used exceeds total" [])

-- `HostResources.Validate`
unfoldable pub validate_host_resources : HostResources → Check
unfolding validate_memory
validate_host_resources h = do
  reject (h.start && h.end) (errorf "host resources sample cannot be both start and end" [])
  validate_memory h.memory

-- `if p == nil { return e }`, and then a check of `*p`.
abbrev pub present {ℓ} : {A : Type ℓ} → String → (A → Check) → Option A → Check
present text check none = err (errorf text [])
present text check (some a) = check a

unfoldable pub check_stats : Option EdgeStats → Check
check_stats none = err (errorf "edge_stats message requires an edge ID" [])
check_stats (some s) = reject (s.edge_id == "") (errorf "edge_stats message requires an edge ID" [])

unfoldable pub check_failure : Option Failure → Check
check_failure none = err (errorf "failed message requires an error code and message" [])
check_failure (some e) =
    reject (e.code == "" || e.message == "")
      (errorf "failed message requires an error code and message" [])

unfoldable pub check_log : Option Log → Check
check_log none = err (errorf "log message requires log content" [])
check_log (some l) = reject (l.message == "") (errorf "log message requires log content" [])

unfoldable pub check_completion : Option SessionCompleted → Check
check_completion none = ok tt
check_completion (some c) = elim c.preview [ none ↦ ok tt | some p ↦ validate_preview p ]

unfoldable pub check_batch : MessageType → Option Batch → Check
check_batch t none = err (errorf "%s message requires a batch" (str (type_text t) ∷ []))
check_batch t (some b) = wrap "invalid %s: %w" (str (type_text t) ∷ []) (validate_batch b)

-- `switch m.Type`
unfoldable pub validate_content : MessageType → Message → Check
validate_content initialize m = ok tt
validate_content ready m = ok tt
validate_content input_end m = ok tt
validate_content completed m = ok tt
validate_content stop_input m =
    reject (m.port_id == "") (errorf "stop_input message requires an input port" [])
validate_content batch_complete m =
    reject (eqb m.sequence 0) (errorf "batch_complete message requires a sequence" [])
validate_content cancel m = ok tt
validate_content session_start m =
    present "session_start message requires session content" validate_start m.session_start
validate_content session_ready m =
    present "session_ready message requires session content" validate_ready m.session_ready
validate_content session_connect m =
    present "session_connect message requires topology" validate_connect m.session_connect
validate_content session_connected m = ok tt
validate_content session_run m = ok tt
validate_content session_completed m = check_completion m.session_completed
validate_content edge_stats m = check_stats m.edge_stats
validate_content credit m =
    present "credit message requires credit content" validate_credit m.credit
validate_content input_batch m = check_batch input_batch m.batch
validate_content output_batch m = check_batch output_batch m.batch
validate_content failed m = check_failure m.error
validate_content log m = check_log m.log
validate_content progress m =
    present "progress message requires progress content" (λ p. ok tt) m.progress
validate_content host_resources m =
    present "host_resources message requires resource content" validate_host_resources
      m.host_resources
validate_content capability_request m =
    present "capability_request message requires request content" validate_request
      m.capability_request
validate_content capability_response m =
    present "capability_response message requires response content" validate_response
      m.capability_response
validate_content (other t) m = err (errorf "unknown runner message type %q" (str t ∷ []))
