-- ===== src/Session/Connect.antt =====
-- runner/v1/session.go: `SessionConnect.Validate`.
pub mod Valid
use nodima_sdk.Base.{
  ℕ, String, not, same, if◌then◌else◌, List, [], ◌∷◌, length, Check, Result, ok, errorf, str,
  reject, ◌>>=◌, ◌>>◌, ◌==◌, ◌||◌, eqb, ltb, contains,
}
use nodima_sdk.Session.{
  SessionPeer, SessionPeerEdge, SessionConnect, max_session_nodes, max_session_edges,
}
use nodima_sdk.Session.Start.{is_incomplete}

-- The loop over the peers; the result is the map of their hosts.
unfoldable pub validate_peers : List String → List SessionPeer → Result (List String)
validate_peers peers [] = ok peers
validate_peers peers (p ∷ ps) = do
  reject (p.host_id == "" || (p.address == "" || eqb p.port 0))
      (errorf "session_connect peer requires host, address, and port" [])
  reject (contains peers p.host_id) (errorf "session_connect repeats peer %q" (str p.host_id ∷ []))
  validate_peers (p.host_id ∷ peers) ps

unfoldable pub validate_connect_edges :
    String → List String → List String → List SessionPeerEdge → Check
validate_connect_edges host peers edge_ids [] = ok tt
validate_connect_edges host peers edge_ids (e ∷ es) = do
  reject (is_incomplete e) (errorf "session_connect edge is incomplete" [])
  reject (e.from_host_id == e.to_host_id)
      (errorf "session_connect edge %q must cross hosts" (str e.edge_id ∷ []))
  reject (contains edge_ids e.edge_id)
      (errorf "session_connect repeats edge %q" (str e.edge_id ∷ []))
  let from_local = e.from_host_id == host
  let to_local = e.to_host_id == host
  reject (same from_local to_local)
      (errorf "session_connect edge %q must have exactly one local endpoint" (str e.edge_id ∷ []))
  let other_host = if from_local then e.to_host_id else e.from_host_id
  reject (not (contains peers other_host)) (
      errorf "session_connect edge %q references unexpected peer %q"
        (str e.edge_id ∷ str other_host ∷ []))
  validate_connect_edges host peers (e.edge_id ∷ edge_ids) es

-- `SessionConnect.Validate`
unfoldable pub validate_connect : SessionConnect → Check
validate_connect s = do
  reject (s.host_id == "") (errorf "session_connect requires a host ID" [])
  reject (ltb max_session_nodes (length s.peers) || ltb max_session_edges (length s.edges))
      (errorf "session_connect topology exceeds its limit" [])
  peers ← validate_peers [] s.peers
  validate_connect_edges s.host_id peers [] s.edges
