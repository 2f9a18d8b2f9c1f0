-- ===== src/Session/Connect/Valid.antt =====
-- When the peer topology of a session is accepted.
use nodima_sdk.Base.{
  ◌≤◌, String, ◌≡◌, ◌≢◌, ◌⊎◌, ◌↔◌, List, [], ◌∷◌, map, length, All, ok, arith, eq_iff, inl, inr,
  Occurs, IsDistinct, IsFresh, IsFresh-iff, contains, known_iff, add_all, true, determined,
}
use nodima_sdk.Session.{SessionPeer, SessionPeerEdge, SessionConnect}
use nodima_sdk.Session.Start.Valid.{IsWhole, IsWhole-iff}
use nodima_sdk.Session.Connect.{validate_peers, validate_connect_edges, validate_connect}

pub record IsPeer (p : SessionPeer) : Type 0 where
  pub host : p.host_id ≢ ""
  pub address : p.address ≢ ""
  pub port : p.port ≢ 0

-- An edge with one end on the host and the other on one of the expected peers.
pub record IsLink (host : String) (peers : List String) (e : SessionPeerEdge) : Type 0 where
  pub whole : IsWhole e
  pub ends :
      ((e.from_host_id ≡ host) × (e.to_host_id ≢ host) × Occurs e.to_host_id peers)
      ⊎ ((e.to_host_id ≡ host) × (e.from_host_id ≢ host) × Occurs e.from_host_id peers)

abbrev pub hosts_of : List SessionPeer → List String
hosts_of = map (λ p. p.host_id)

abbrev link_ids : List SessionPeerEdge → List String
link_ids = map (λ e. e.edge_id)

pub record IsTopology (s : SessionConnect) : Type 0 where
  pub host : s.host_id ≢ ""
  pub sizes : (length s.peers ≤ 256) × (length s.edges ≤ 4096)
  pub peers : All IsPeer s.peers
  pub distinct_peers : IsDistinct (hosts_of s.peers)
  pub links : All (IsLink s.host_id (hosts_of s.peers)) s.edges
  pub distinct_links : IsDistinct (link_ids s.edges)

peers_iff :
    (seen : List String) (ps : List SessionPeer) (r : List String)
    → (validate_peers seen ps ≡ ok r)
      ↔ ((All IsPeer ps × IsFresh seen (hosts_of ps)) × (r ≡ add_all seen (hosts_of ps)))
unfolding validate_peers
peers_iff seen [] r = ground arith
peers_iff seen (p ∷ ps) r =
    ground (arith, eq_iff p.host_id "", eq_iff p.address "", peers_iff (p.host_id ∷ seen) ps r)

module _ (peers hosts : List String)
    (known : (x : String) → (contains peers x ≡ true) ↔ Occurs x hosts) where
  links_iff :
      (host : String) (seen : List String) (es : List SessionPeerEdge)
      → (validate_connect_edges host peers seen es ≡ ok tt)
        ↔ (All (IsLink host hosts) es × IsFresh seen (link_ids es))
  unfolding validate_connect_edges
  links_iff host seen [] = ground arith
  links_iff host seen (e ∷ es) = ground (
    arith,
    IsWhole-iff e,
    known e.from_host_id,
    known e.to_host_id,
    eq_iff e.from_host_id e.to_host_id,
    eq_iff e.from_host_id host,
    eq_iff e.to_host_id host,
    links_iff host (e.edge_id ∷ seen) es,
  )

-- A topology is accepted exactly when it names its host, stays within the limits, its peers are
-- complete with pairwise different hosts, its edge IDs are pairwise different, and every edge is
-- complete and joins the host itself with one of the listed peers.
pub validate_connect_iff : (s : SessionConnect) → (validate_connect s ≡ ok tt) ↔ IsTopology s
unfolding validate_connect
validate_connect_iff s =
    let hosts = hosts_of s.peers in
    let peers = add_all [] hosts in
    elim (determined (validate_peers [] s.peers) peers (peers_iff [] s.peers)) [
      | inr (x, e, bad) ↦ ground (arith, IsFresh-iff hosts)
      | inl (e, p) ↦ ground (
        arith,
        eq_iff s.host_id "",
        IsFresh-iff hosts,
        IsFresh-iff (link_ids s.edges),
        links_iff peers hosts (known_iff hosts) s.host_id [] s.edges,
      )
    ]
