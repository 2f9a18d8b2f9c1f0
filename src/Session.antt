-- ===== src/Session.antt =====
-- runner/v1/session.go: the messages that frame a session of one or more remote nodes.
-- A TLS blob is a list of bytes; a Go map is the list of its entries, in the order in which the
-- loop meets them.
pub mod Limits
pub mod Nodes
pub mod Start
pub mod Connect
pub mod Preview
pub mod Credits
mod Tests
use nodima_sdk.Base.{ℕ, String, Bool, Option, List}
use nodima_sdk.Capability.{Capability}

abbrev pub abi_version : String
abi_version = "dbminer.runner.v1alpha2"

abbrev pub max_session_nodes : ℕ
max_session_nodes = 256

abbrev pub max_session_edges : ℕ
max_session_edges = 4096

pub record HttpGrant : Type 0 where
  pub scheme : String
  pub host : String
  pub ports : List ℕ

pub record FileReadGrant : Type 0 where
  pub name : String
  pub root : String
  pub max_bytes : ℕ

pub record FileWriteGrant : Type 0 where
  pub name : String
  pub root : String
  pub max_bytes : ℕ
  pub delivery : String

pub record ScratchGrant : Type 0 where
  pub max_bytes : ℕ
  pub max_files : ℕ

pub record RunnerGrant : Type 0 where
  pub composite_definition_id : String
  pub node_id : String
  pub http : List HttpGrant
  pub file_read : List FileReadGrant
  pub file_write : List FileWriteGrant
  pub scratch : Option ScratchGrant
  pub secrets : List String

pub record SpillLimits : Type 0 where
  pub memory_bytes : ℕ
  pub scratch_bytes : ℕ
  pub scratch_files : ℕ
  pub frame_bytes : ℕ
  pub merge_fan_in : ℕ

pub record SessionNode : Type 0 where
  pub node_id : String
  pub package_id : String
  pub version : String
  pub config : List (String × String)
  pub input_ports : List String
  pub output_ports : List String
  pub stop_when_unused : Bool
  pub capabilities : List Capability
  pub package_digest : String
  pub runner_grant : Option RunnerGrant
  pub secret_values : List (String × String)
  pub spill_limits : Option SpillLimits
  pub replica_host_ids : List String
  pub replica_worker : Bool

pub record SessionEdge : Type 0 where
  pub edge_id : String
  pub from_node_id : String
  pub from_port_id : String
  pub to_node_id : String
  pub to_port_id : String

pub record SessionBoundary : Type 0 where
  pub edge_id : String
  pub node_id : String
  pub port_id : String
  pub direction : String

abbrev pub boundary_input : String
boundary_input = "input"

abbrev pub boundary_output : String
boundary_output = "output"

pub record SessionTls : Type 0 where
  pub ca : List ℕ
  pub certificate : List ℕ
  pub private_key : List ℕ

pub record SessionPeer : Type 0 where
  pub host_id : String
  pub address : String
  pub port : ℕ

pub record SessionPeerEdge : Type 0 where
  pub edge_id : String
  pub from_host_id : String
  pub from_node_id : String
  pub from_port_id : String
  pub to_host_id : String
  pub to_node_id : String
  pub to_port_id : String

pub record SessionConnect : Type 0 where
  pub host_id : String
  pub peers : List SessionPeer
  pub edges : List SessionPeerEdge

pub record SessionStart : Type 0 where
  pub execution_id : String
  pub host_id : String
  pub nodes : List SessionNode
  pub edges : List SessionEdge
  pub boundaries : List SessionBoundary
  pub peer_edges : List SessionPeerEdge
  pub target_node_id : String
  pub peer_tls : Option SessionTls
  pub wall_time_ms : ℕ

pub record SessionReady : Type 0 where
  pub abi : String
  pub agent_version : String
  pub sha256 : String
  pub os : String
  pub arch : String
  pub peer_port : ℕ

pub record Credit : Type 0 where
  pub edge_id : String
  pub node_id : String
  pub port_id : String
  pub batches : ℕ

pub record EdgeStats : Type 0 where
  pub edge_id : String
  pub batches : ℕ
  pub rows : ℕ
  pub byte_count : ℕ

pub record SessionPreviewColumn : Type 0 where
  pub name : String
  pub type : String
  pub nullable : Bool

pub record SessionPreviewPort : Type 0 where
  pub port_id : String
  pub columns : List SessionPreviewColumn
  pub rows : List (List (Option String))
  pub rows_produced : ℕ
  pub truncated : Bool

pub record SessionPreview : Type 0 where
  pub ports : List SessionPreviewPort

pub record SessionCompleted : Type 0 where
  pub preview : Option SessionPreview
