-- ===== src/Message.antt =====
-- runner/v1/message.go: the envelope of a runner instance and its validation.
pub mod Types
pub mod Content
pub mod Valid
mod Tests
use nodima_sdk.Base.{
  String, Bool, true, false, not, is_some, eqb, [], ◌∷◌, Check, ok, errorf, str, reject, ◌>>=◌,
  ◌>>◌, ◌==◌, ◌&&◌,
}
use nodima_sdk.Session.{abi_version}
use nodima_sdk.Message.Types.{
  MessageType, Message, input_batch, output_batch, batch_complete, capability_request,
  capability_response, session_start, session_ready, session_connect, session_completed, credit,
  edge_stats, type_text,
}
use nodima_sdk.Message.Content.{validate_content}

-- Tests of `m.Type` against the constants.
abbrev pub is_batch_type : MessageType → Bool
is_batch_type input_batch = true
is_batch_type output_batch = true
is_batch_type _ = false

abbrev pub is_sequenced_type : MessageType → Bool
is_sequenced_type input_batch = true
is_sequenced_type output_batch = true
is_sequenced_type batch_complete = true
is_sequenced_type _ = false

abbrev pub is_capability_request : MessageType → Bool
is_capability_request capability_request = true
is_capability_request _ = false

abbrev pub is_capability_response : MessageType → Bool
is_capability_response capability_response = true
is_capability_response _ = false

abbrev pub is_session_start : MessageType → Bool
is_session_start session_start = true
is_session_start _ = false

abbrev pub is_session_ready : MessageType → Bool
is_session_ready session_ready = true
is_session_ready _ = false

abbrev pub is_session_connect : MessageType → Bool
is_session_connect session_connect = true
is_session_connect _ = false

abbrev pub is_session_completed : MessageType → Bool
is_session_completed session_completed = true
is_session_completed _ = false

abbrev pub is_credit : MessageType → Bool
is_credit credit = true
is_credit _ = false

abbrev pub is_edge_stats : MessageType → Bool
is_edge_stats edge_stats = true
is_edge_stats _ = false

-- `if m.Type != … && m.… != nil`: content under another type than its own.
abbrev misplaced : Bool → Bool → String → MessageType → Check
misplaced own present format t =
    reject (not own && present) (errorf format (str (type_text t) ∷ []))

-- The checks above the switch.
unfoldable pub validate_placement : Message → Check
validate_placement m = do
  misplaced (is_batch_type m.type) (is_some m.batch) "%s message cannot contain a batch" m.type
  misplaced (is_capability_request m.type) (is_some m.capability_request)
      "%s message cannot contain a capability request" m.type
  misplaced (is_capability_response m.type) (is_some m.capability_response)
      "%s message cannot contain a capability response" m.type
  misplaced (is_session_start m.type) (is_some m.session_start)
      "%s message cannot contain a session start" m.type
  misplaced (is_session_ready m.type) (is_some m.session_ready)
      "%s message cannot contain a session ready" m.type
  misplaced (is_session_connect m.type) (is_some m.session_connect)
      "%s message cannot contain session connect" m.type
  misplaced (is_session_completed m.type) (is_some m.session_completed)
      "%s message cannot contain session completion" m.type
  misplaced (is_credit m.type) (is_some m.credit) "%s message cannot contain credit" m.type
  misplaced (is_edge_stats m.type) (is_some m.edge_stats) "%s message cannot contain edge stats"
      m.type
  misplaced (is_sequenced_type m.type) (not (eqb m.sequence 0))
      "%s message cannot contain a batch sequence" m.type

-- `Message.Validate`
unfoldable pub validate_message : Message → Check
validate_message m = do
  reject (not (m.abi == abi_version)) (errorf "unsupported runner ABI %q" (str m.abi ∷ []))
  validate_placement m
  validate_content m.type m
