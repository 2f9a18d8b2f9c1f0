-- ===== src/Session/Tests.antt =====
-- runner/v1/session.go: validation of session messages, run on small inputs.
use nodima_sdk.Base.{
  refl, contains, err, errorf, str, String, none, some, true, false, [], ◌∷◌, ◌≡◌, ◌≢◌, ◌↔◌, ◌⊎◌,
  ◌<◌, ok, ℕ,
}
use nodima_sdk.Session.{
  SessionNode, SessionEdge, SessionStart, SessionPeerEdge, SessionConnect, SessionPreview,
  SpillLimits,
}
use nodima_sdk.Session.Limits.{validate_spill_limits, validate_spill_limits-refuses}
use nodima_sdk.Session.Nodes.{
  validate_node, validate_nodes, validate_digest, validate_secrets, count_secrets,
  validate_capabilities, validate_spill,
}
use nodima_sdk.Session.Nodes.Valid.{AreNodes, ids_of, validate_nodes_iff}
use nodima_sdk.Base.{add_all}
use nodima_sdk.Session.Start.{
  validate_start, validate_sizes, validate_tls, validate_edges, validate_boundaries, is_misdirected,
  is_incomplete, validate_peer_edges,
}
use nodima_sdk.Session.Start.Valid.{HasSizes, IsGraph, validate_start_iff}
use nodima_sdk.Session.Connect.{validate_connect, validate_peers, validate_connect_edges}
use nodima_sdk.Session.Connect.Valid.{IsTopology, validate_connect_iff}
use nodima_sdk.Session.Preview.{
  count_ports, count_rows, validate_preview, IsSnapshot, validate_preview_iff,
}

abbrev node : String → SessionNode
node id = record {
  node_id = id;
  package_id = "core.filter";
  version = "1.0.0";
  config = [];
  input_ports = "in" ∷ [];
  output_ports = "out" ∷ [];
  stop_when_unused = false;
  capabilities = [];
  package_digest = "";
  runner_grant = none;
  secret_values = [];
  spill_limits = none;
  replica_host_ids = [];
  replica_worker = false;
}

abbrev edge : String → SessionEdge
edge id = record {
  edge_id = id;
  from_node_id = "a";
  from_port_id = "out";
  to_node_id = "b";
  to_port_id = "in";
}

abbrev chain : SessionStart
chain = record {
  execution_id = "run";
  host_id = "";
  nodes = node "a" ∷ (node "b" ∷ []);
  edges = edge "e" ∷ [];
  boundaries = record { edge_id = "i"; node_id = "a"; port_id = "in"; direction = "input" } ∷ [];
  peer_edges = [];
  target_node_id = "b";
  peer_tls = none;
  wall_time_ms = 0;
}

abbrev link : SessionPeerEdge
link = record {
  edge_id = "e";
  from_host_id = "left";
  from_node_id = "a";
  from_port_id = "out";
  to_host_id = "right";
  to_node_id = "b";
  to_port_id = "in";
}

abbrev topology : SessionConnect
topology = record {
  host_id = "left";
  peers = record { host_id = "right"; address = "10.0.0.2"; port = 7000 } ∷ [];
  edges = link ∷ [];
}

abbrev snapshot : SessionPreview
snapshot = record {
  ports =
      record {
        port_id = "out";
        columns = record { name = "x"; type = "string"; nullable = true } ∷ [];
        rows = (some "v" ∷ []) ∷ ((none ∷ []) ∷ []);
        rows_produced = 2;
        truncated = false;
      }
      ∷ [];
}

abbrev fan_in : ℕ → SpillLimits
fan_in n = record {
  memory_bytes = 0;
  scratch_bytes = 0;
  scratch_files = 0;
  frame_bytes = 0;
  merge_fan_in = n;
}

chain_accepted : validate_start chain ≡ ok tt
unfolding validate_start validate_sizes validate_tls validate_nodes validate_node validate_digest
    validate_secrets count_secrets validate_capabilities validate_spill validate_edges
    validate_boundaries is_misdirected validate_peer_edges contains
chain_accepted = refl

repeated_edge_refused :
    validate_start (record chain { edges = edge "i" ∷ [] })
    ≡ err (errorf "session_start repeats edge %q" (str "i" ∷ []))
unfolding validate_start validate_sizes validate_tls validate_nodes validate_node validate_digest
    validate_secrets count_secrets validate_capabilities validate_spill validate_edges
    validate_boundaries is_misdirected validate_peer_edges contains
repeated_edge_refused = refl

topology_accepted : validate_connect topology ≡ ok tt
unfolding validate_connect validate_peers validate_connect_edges is_incomplete contains
topology_accepted = refl

snapshot_accepted : validate_preview snapshot ≡ ok tt
unfolding validate_preview count_ports count_rows contains
snapshot_accepted = refl

validate_start_iff_example : (validate_start chain ≡ ok tt) ↔ (HasSizes chain × IsGraph chain)
validate_start_iff_example = validate_start_iff chain

validate_nodes_iff_example :
    (validate_nodes [] chain.nodes ≡ ok ("b" ∷ ("a" ∷ [])))
    ↔ (AreNodes [] chain.nodes × (("b" ∷ ("a" ∷ [])) ≡ add_all [] (ids_of chain.nodes)))
validate_nodes_iff_example = validate_nodes_iff [] chain.nodes ("b" ∷ ("a" ∷ []))

validate_connect_iff_example : (validate_connect topology ≡ ok tt) ↔ IsTopology topology
validate_connect_iff_example = validate_connect_iff topology

validate_preview_iff_example : (validate_preview snapshot ≡ ok tt) ↔ IsSnapshot snapshot
validate_preview_iff_example = validate_preview_iff snapshot

validate_spill_limits-refuses_example :
    (validate_spill_limits (fan_in 9) ≢ ok tt)
    ↔ (((0 < 0) × (0 < 4)) ⊎ (((fan_in 9).merge_fan_in ≡ 1) ⊎ (8 < 9)))
validate_spill_limits-refuses_example = validate_spill_limits-refuses (fan_in 9)
