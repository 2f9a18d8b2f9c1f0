-- ===== src/Message/Types.antt =====
-- runner/v1/message.go: the envelope.
use nodima_sdk.Base.{ℕ, String, Bool, Option, none, List, []}
use nodima_sdk.Capability.{Failure, CapabilityRequest, CapabilityResponse}
use nodima_sdk.Batch.{Batch}
use nodima_sdk.Session.{
  SessionStart, SessionReady, SessionConnect, SessionCompleted, Credit, EdgeStats, abi_version,
}

-- A Go string type with named constants; `other` is a text that is none of them.
pub data MessageType : Type 0 where
  initialize ready input_batch output_batch input_end stop_input completed failed : MessageType
  log progress host_resources batch_complete : MessageType
  capability_request capability_response : MessageType
  session_start session_ready session_connect session_connected session_run : MessageType
  session_completed edge_stats cancel credit : MessageType
  other : String → MessageType

-- The text of a type on the wire.
unfoldable pub type_text : MessageType → String
type_text initialize = "initialize"
type_text ready = "ready"
type_text input_batch = "input_batch"
type_text output_batch = "output_batch"
type_text input_end = "input_end"
type_text stop_input = "stop_input"
type_text completed = "completed"
type_text failed = "failed"
type_text log = "log"
type_text progress = "progress"
type_text host_resources = "host_resources"
type_text batch_complete = "batch_complete"
type_text capability_request = "capability_request"
type_text capability_response = "capability_response"
type_text session_start = "session_start"
type_text session_ready = "session_ready"
type_text session_connect = "session_connect"
type_text session_connected = "session_connected"
type_text session_run = "session_run"
type_text session_completed = "session_completed"
type_text edge_stats = "edge_stats"
type_text cancel = "cancel"
type_text credit = "credit"
type_text (other t) = t

pub record Log : Type 0 where
  pub level : String
  pub message : String

pub record Progress : Type 0 where
  pub rows_processed : ℕ
  pub bytes_read : ℕ
  pub bytes_written : ℕ

pub record MemoryResources : Type 0 where
  pub total_bytes : ℕ
  pub used_bytes : ℕ

pub record HostResources : Type 0 where
  pub memory : Option MemoryResources
  pub start : Bool
  pub end : Bool

pub record Message : Type 0 where
  pub abi : String
  pub type : MessageType
  pub execution_id : String
  pub node_id : String
  pub port_id : String
  pub edge_id : String
  pub sequence : ℕ
  pub config : List (String × String)
  pub batch : Option Batch
  pub error : Option Failure
  pub log : Option Log
  pub progress : Option Progress
  pub host_resources : Option HostResources
  pub capability_request : Option CapabilityRequest
  pub capability_response : Option CapabilityResponse
  pub session_start : Option SessionStart
  pub session_ready : Option SessionReady
  pub session_connect : Option SessionConnect
  pub session_completed : Option SessionCompleted
  pub credit : Option Credit
  pub edge_stats : Option EdgeStats

-- `NewMessage`
abbrev pub new_message : MessageType → Message
new_message t = record {
  abi = abi_version;
  type = t;
  execution_id = "";
  node_id = "";
  port_id = "";
  edge_id = "";
  sequence = 0;
  config = [];
  batch = none;
  error = none;
  log = none;
  progress = none;
  host_resources = none;
  capability_request = none;
  capability_response = none;
  session_start = none;
  session_ready = none;
  session_connect = none;
  session_completed = none;
  credit = none;
  edge_stats = none;
}
