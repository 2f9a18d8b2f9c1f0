-- ===== src/Session/Start.antt =====
-- runner/v1/session.go: `SessionStart.Validate`.
pub mod Valid
use nodima_sdk.Base.{
  ℕ, ◌+◌, ◌^◌, ◌*◌, String, Bool, not, same, Option, some, none, List, [], ◌∷◌, length, is_empty,
  is_none, Check, Result, ok, errorf, str, num, reject, ◌>>=◌, ◌>>◌, ◌==◌, ◌||◌, ◌&&◌, ltb,
  contains,
}
use nodima_sdk.Session.{
  SessionEdge, SessionBoundary, SessionPeerEdge, SessionTls, SessionStart, max_session_nodes,
  max_session_edges, boundary_input, boundary_output,
}
use nodima_sdk.Session.Nodes.{validate_nodes}

unfoldable pub validate_tls : Option SessionTls → Check
validate_tls none = ok tt
validate_tls (some t) = do
  reject (is_empty t.ca || (is_empty t.certificate || is_empty t.private_key))
      (errorf "session_start peer TLS requires CA, certificate, and private key" [])
  reject (ltb (64 * 2 ^ 10) (length t.ca + length t.certificate + length t.private_key))
      (errorf "session_start peer TLS material exceeds its byte limit" [])

-- The checks before the loops.
unfoldable pub validate_sizes : SessionStart → Check
validate_sizes s = do
  reject (s.execution_id == "") (errorf "session_start requires an execution ID" [])
  reject (is_empty s.nodes) (errorf "session_start requires at least one node" [])
  reject (ltb max_session_nodes (length s.nodes))
      (errorf "session_start exceeds %d nodes" (num max_session_nodes ∷ []))
  reject (ltb max_session_edges (length s.edges))
      (errorf "session_start exceeds %d edges" (num max_session_edges ∷ []))
  reject (ltb max_session_edges (length s.boundaries))
      (errorf "session_start exceeds %d boundaries" (num max_session_edges ∷ []))
  reject (ltb max_session_edges (length s.peer_edges))
      (errorf "session_start exceeds %d peer edges" (num max_session_edges ∷ []))
  reject (not (is_empty s.peer_edges) && (s.host_id == "" || is_none s.peer_tls))
      (errorf "session_start peer edges require a host ID and TLS material" [])
  validate_tls s.peer_tls

-- The loop over the edges; `edges` is the map of the edge IDs seen, and the result is that map.
unfoldable pub validate_edges : List String → List String → List SessionEdge → Result (List String)
validate_edges nodes edges [] = ok edges
validate_edges nodes edges (e ∷ es) = do
  reject (e.edge_id == "") (errorf "session_start edge requires an ID" [])
  reject (contains edges e.edge_id) (errorf "session_start repeats edge %q" (str e.edge_id ∷ []))
  reject (not (contains nodes e.from_node_id)) (
      errorf "session_start edge %q leaves unknown node %q"
        (str e.edge_id ∷ str e.from_node_id ∷ []))
  reject (not (contains nodes e.to_node_id)) (
      errorf "session_start edge %q enters unknown node %q" (str e.edge_id ∷ str e.to_node_id ∷ []))
  reject (e.from_port_id == "" || e.to_port_id == "")
      (errorf "session_start edge %q requires both port IDs" (str e.edge_id ∷ []))
  validate_edges nodes (e.edge_id ∷ edges) es

-- `boundary.Direction != BoundaryInput && boundary.Direction != BoundaryOutput`
unfoldable pub is_misdirected : String → Bool
is_misdirected d = not (d == boundary_input) && not (d == boundary_output)

unfoldable pub validate_boundaries :
    List String → List String → List SessionBoundary → Result (List String)
validate_boundaries nodes edges [] = ok edges
validate_boundaries nodes edges (b ∷ bs) = do
  reject (b.edge_id == "" || (b.node_id == "" || b.port_id == ""))
      (errorf "session_start boundary requires edge, node, and port IDs" [])
  reject (not (contains nodes b.node_id)) (
      errorf "session_start boundary %q references unknown node %q"
        (str b.edge_id ∷ str b.node_id ∷ []))
  reject (contains edges b.edge_id) (errorf "session_start repeats edge %q" (str b.edge_id ∷ []))
  reject (is_misdirected b.direction) (
      errorf "session_start boundary %q has invalid direction %q"
        (str b.edge_id ∷ str b.direction ∷ []))
  validate_boundaries nodes (b.edge_id ∷ edges) bs

-- An empty field of a peer edge.
unfoldable pub is_incomplete : SessionPeerEdge → Bool
is_incomplete e =
    e.edge_id == ""
    || (e.from_host_id == ""
        || (e.to_host_id == ""
            || (e.from_node_id == ""
                || (e.to_node_id == "" || (e.from_port_id == "" || e.to_port_id == "")))))

unfoldable pub validate_peer_edges :
    String → List String → List String → List SessionPeerEdge → Check
validate_peer_edges host nodes edges [] = ok tt
validate_peer_edges host nodes edges (e ∷ es) = do
  reject (is_incomplete e) (errorf "session_start peer edge is incomplete" [])
  let from_local = contains nodes e.from_node_id
  let to_local = contains nodes e.to_node_id
  reject (same from_local to_local) (
      errorf "session_start peer edge %q must have exactly one local endpoint" (str e.edge_id ∷ []))
  reject (contains edges e.edge_id) (errorf "session_start repeats edge %q" (str e.edge_id ∷ []))
  reject (e.from_host_id == e.to_host_id)
      (errorf "session_start peer edge %q must cross hosts" (str e.edge_id ∷ []))
  reject (from_local && not (e.from_host_id == host) || to_local && not (e.to_host_id == host))
      (errorf "session_start peer edge %q has the wrong local host" (str e.edge_id ∷ []))
  validate_peer_edges host nodes (e.edge_id ∷ edges) es

-- `SessionStart.Validate`
unfoldable pub validate_start : SessionStart → Check
validate_start s = do
  validate_sizes s
  nodes ← validate_nodes [] s.nodes
  reject (not (s.target_node_id == "") && not (contains nodes s.target_node_id))
      (errorf "session_start preview target %q is not a session node" (str s.target_node_id ∷ []))
  edges ← validate_edges nodes [] s.edges
  edges' ← validate_boundaries nodes edges s.boundaries
  validate_peer_edges s.host_id nodes edges' s.peer_edges
