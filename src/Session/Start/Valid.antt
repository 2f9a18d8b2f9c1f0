-- ===== src/Session/Start/Valid.antt =====
-- When a session start is accepted: its graph is well formed.
use nodima_sdk.Base.{
  ◌+◌, ◌^◌, ◌*◌, ◌≤◌, String, ◌≡◌, ◌≢◌, ◌⊎◌, ◌↔◌, Option, some, none, List, [], ◌∷◌, ◌++◌, map,
  length, All, ok, arith, eq_iff, inl, inr, Occurs, IsDistinct, IsFresh, IsFresh-iff,
  IsFresh-append, determined, contains, known_iff, add_all, true, false,
}
use nodima_sdk.Session.{SessionEdge, SessionBoundary, SessionPeerEdge, SessionTls, SessionStart}
use nodima_sdk.Session.Nodes.{validate_nodes}
use nodima_sdk.Session.Nodes.Valid.{ids_of, IsRunnable, AreNodes, validate_nodes_iff}
use nodima_sdk.Session.Start.{
  validate_tls, validate_sizes, validate_edges, validate_boundaries, validate_peer_edges,
  validate_start, is_incomplete, is_misdirected,
}

abbrev HasTls : Option SessionTls → Type 0
HasTls none = Unit
HasTls (some t) =
    (t.ca ≢ [])
    × (t.certificate ≢ [])
    × (t.private_key ≢ [])
    × (length t.ca + length t.certificate + length t.private_key ≤ 64 * 2 ^ 10)

pub record HasSizes (s : SessionStart) : Type 0 where
  pub execution : s.execution_id ≢ ""
  pub nodes : (s.nodes ≢ []) × (length s.nodes ≤ 256)
  pub edges : length s.edges ≤ 4096
  pub boundaries : length s.boundaries ≤ 4096
  pub peer_edges : length s.peer_edges ≤ 4096
  pub peers : (s.peer_edges ≡ []) ⊎ ((s.host_id ≢ "") × (s.peer_tls ≢ none))
  pub tls : HasTls s.peer_tls

tls_iff : (t : Option SessionTls) → (validate_tls t ≡ ok tt) ↔ HasTls t
unfolding validate_tls
tls_iff none = ground arith
tls_iff (some t) = ground arith

sizes_iff : (s : SessionStart) → (validate_sizes s ≡ ok tt) ↔ HasSizes s
unfolding validate_sizes
sizes_iff s = ground (arith, eq_iff s.execution_id "", eq_iff s.host_id "", tls_iff s.peer_tls)

-- An edge inside the session: both ends are nodes of it.
pub record IsEdge (ids : List String) (e : SessionEdge) : Type 0 where
  pub named : e.edge_id ≢ ""
  pub leaves : Occurs e.from_node_id ids
  pub enters : Occurs e.to_node_id ids
  pub ports : (e.from_port_id ≢ "") × (e.to_port_id ≢ "")

-- A link to the service: into or out of a node of the session.
pub record IsBoundary (ids : List String) (b : SessionBoundary) : Type 0 where
  pub named : (b.edge_id ≢ "") × (b.port_id ≢ "")
  pub node : (b.node_id ≢ "") × Occurs b.node_id ids
  pub direction : (b.direction ≡ "input") ⊎ (b.direction ≡ "output")

pub record IsWhole (e : SessionPeerEdge) : Type 0 where
  pub id : e.edge_id ≢ ""
  pub hosts : (e.from_host_id ≢ "") × (e.to_host_id ≢ "")
  pub nodes : (e.from_node_id ≢ "") × (e.to_node_id ≢ "")
  pub ports : (e.from_port_id ≢ "") × (e.to_port_id ≢ "")

-- An edge between hosts: one end is a node of the session, on the session's host, the other is
-- neither.
pub record IsPeerEdge (host : String) (ids : List String) (e : SessionPeerEdge) : Type 0 where
  pub whole : IsWhole e
  pub crosses : e.from_host_id ≢ e.to_host_id
  pub one_local :
      (Occurs e.from_node_id ids × ¬ Occurs e.to_node_id ids × (e.from_host_id ≡ host))
      ⊎ (¬ Occurs e.from_node_id ids × Occurs e.to_node_id ids × (e.to_host_id ≡ host))

abbrev edge_ids : List SessionEdge → List String
edge_ids = map (λ e. e.edge_id)

abbrev boundary_ids : List SessionBoundary → List String
boundary_ids = map (λ b. b.edge_id)

abbrev peer_ids : List SessionPeerEdge → List String
peer_ids = map (λ e. e.edge_id)

pub IsWhole-iff : (e : SessionPeerEdge) → (is_incomplete e ≡ false) ↔ IsWhole e
unfolding is_incomplete
IsWhole-iff e = ground (
  arith,
  eq_iff e.edge_id "",
  eq_iff e.from_host_id "",
  eq_iff e.to_host_id "",
  eq_iff e.from_node_id "",
  eq_iff e.to_node_id "",
  eq_iff e.from_port_id "",
  eq_iff e.to_port_id "",
)

direction_iff : (d : String) → (is_misdirected d ≡ false) ↔ ((d ≡ "input") ⊎ (d ≡ "output"))
unfolding is_misdirected
direction_iff d = ground (arith, eq_iff d "input", eq_iff d "output")

-- `nodes` is the map that the first loop built, and `ids` the IDs that it holds.
module _ (nodes ids : List String)
    (known : (x : String) → (contains nodes x ≡ true) ↔ Occurs x ids) where
  edges_iff :
      (seen : List String) (es : List SessionEdge) (r : List String)
      → (validate_edges nodes seen es ≡ ok r)
        ↔ ((All (IsEdge ids) es × IsFresh seen (edge_ids es)) × (r ≡ add_all seen (edge_ids es)))
  unfolding validate_edges
  edges_iff seen [] r = ground arith
  edges_iff seen (e ∷ es) r = ground (
    arith,
    eq_iff e.edge_id "",
    eq_iff e.from_port_id "",
    eq_iff e.to_port_id "",
    known e.from_node_id,
    known e.to_node_id,
    edges_iff (e.edge_id ∷ seen) es r,
  )

  boundaries_iff :
      (seen : List String) (bs : List SessionBoundary) (r : List String)
      → (validate_boundaries nodes seen bs ≡ ok r) ↔ (
          (All (IsBoundary ids) bs × IsFresh seen (boundary_ids bs))
          × (r ≡ add_all seen (boundary_ids bs)))
  unfolding validate_boundaries
  boundaries_iff seen [] r = ground arith
  boundaries_iff seen (b ∷ bs) r = ground (
    arith,
    eq_iff b.edge_id "",
    eq_iff b.node_id "",
    eq_iff b.port_id "",
    direction_iff b.direction,
    known b.node_id,
    boundaries_iff (b.edge_id ∷ seen) bs r,
  )

  peer_edges_iff :
      (host : String) (seen : List String) (es : List SessionPeerEdge)
      → (validate_peer_edges host nodes seen es ≡ ok tt)
        ↔ (All (IsPeerEdge host ids) es × IsFresh seen (peer_ids es))
  unfolding validate_peer_edges
  peer_edges_iff host seen [] = ground arith
  peer_edges_iff host seen (e ∷ es) = ground (
    arith,
    IsWhole-iff e,
    known e.from_node_id,
    known e.to_node_id,
    eq_iff e.from_host_id e.to_host_id,
    eq_iff e.from_host_id host,
    eq_iff e.to_host_id host,
    peer_edges_iff host (e.edge_id ∷ seen) es,
  )

-- The graph of a session: the nodes, and the three kinds of edges over them.
pub record IsGraph (s : SessionStart) : Type 0 where
  pub named : All (λ n. n.node_id ≢ "") s.nodes
  pub distinct_nodes : IsDistinct (ids_of s.nodes)
  pub runnable : All IsRunnable s.nodes
  pub target : (s.target_node_id ≡ "") ⊎ Occurs s.target_node_id (ids_of s.nodes)
  pub edges : All (IsEdge (ids_of s.nodes)) s.edges
  pub boundaries : All (IsBoundary (ids_of s.nodes)) s.boundaries
  pub peer_edges : All (IsPeerEdge s.host_id (ids_of s.nodes)) s.peer_edges
  pub distinct_edges :
      IsDistinct (edge_ids s.edges ++ (boundary_ids s.boundaries ++ peer_ids s.peer_edges))

-- Three loops that share the set of edge IDs find every repetition among all edges.
fresh3_iff :
    (xs ys zs : List String)
    → (IsFresh [] xs × IsFresh (add_all [] xs) ys × IsFresh (add_all (add_all [] xs) ys) zs)
      ↔ IsDistinct (xs ++ (ys ++ zs))
fresh3_iff xs ys zs = ground (
  arith,
  IsFresh-iff (xs ++ (ys ++ zs)),
  IsFresh-append [] xs (ys ++ zs),
  IsFresh-append (add_all [] xs) ys zs,
)

-- What the loops find, with the maps that they pass on.
record Passed (s : SessionStart) : Type 0 where
  nodes : AreNodes [] s.nodes
  target : (s.target_node_id ≡ "") ⊎ Occurs s.target_node_id (ids_of s.nodes)
  edges : All (IsEdge (ids_of s.nodes)) s.edges
  boundaries : All (IsBoundary (ids_of s.nodes)) s.boundaries
  peer_edges : All (IsPeerEdge s.host_id (ids_of s.nodes)) s.peer_edges
  fresh :
      IsFresh [] (edge_ids s.edges)
      × IsFresh (add_all [] (edge_ids s.edges)) (boundary_ids s.boundaries)
      × IsFresh
          (add_all (add_all [] (edge_ids s.edges)) (boundary_ids s.boundaries))
          (peer_ids s.peer_edges)

Passed-iff : (s : SessionStart) → Passed s ↔ IsGraph s
Passed-iff s = ground (
  arith,
  IsFresh-iff (ids_of s.nodes),
  fresh3_iff (edge_ids s.edges) (boundary_ids s.boundaries) (peer_ids s.peer_edges),
)

start_iff : (s : SessionStart) → (validate_start s ≡ ok tt) ↔ (HasSizes s × Passed s)
unfolding validate_start
start_iff s =
    let ids = ids_of s.nodes in
    let nodes = add_all [] ids in
    let edges = add_all [] (edge_ids s.edges) in
    let known = known_iff ids in
    elim (determined (validate_nodes [] s.nodes) nodes (validate_nodes_iff [] s.nodes)) [
      | inr (x, e, bad) ↦ ground (arith, sizes_iff s)
      | inl (e, p) ↦
          elim (determined (validate_edges nodes [] s.edges) edges
            (edges_iff nodes ids known [] s.edges)) [
              | inr (x, f, bad) ↦ ground (arith, sizes_iff s)
              | inl (f, q) ↦
                  elim (determined (validate_boundaries nodes edges s.boundaries)
                    (add_all edges (boundary_ids s.boundaries))
                    (boundaries_iff nodes ids known edges s.boundaries)) [
                      | inr (x, g, bad) ↦ ground (arith, sizes_iff s)
                      | inl (g, b) ↦ ground (
                        arith,
                        sizes_iff s,
                        known s.target_node_id,
                        eq_iff s.target_node_id "",
                        peer_edges_iff nodes ids known s.host_id
                            (add_all edges (boundary_ids s.boundaries)) s.peer_edges,
                      )
                    ]
            ]
    ]

-- A session start is accepted exactly when its sizes and TLS material are within the limits and
-- its graph is well formed: node IDs are present and pairwise different, every node is runnable,
-- a preview target is one of the nodes, every edge and boundary joins nodes of the session, every
-- peer edge has exactly one local end, on the session's own host, and the IDs of edges,
-- boundaries and peer edges are pairwise different across the three lists.
pub validate_start_iff : (s : SessionStart) → (validate_start s ≡ ok tt) ↔ (HasSizes s × IsGraph s)
validate_start_iff s = ground (arith, start_iff s, Passed-iff s)
