-- ===== src/Session/Credits.antt =====
-- runner/v1/session.go: `Credit.Validate` and `SessionReady.Validate`.
use nodima_sdk.Base.{
  ◌≤◌, ◌<◌, ◌≡◌, ◌≢◌, ◌⊎◌, ◌↔◌, [], ◌∷◌, Check, ok, errorf, str, reject, ◌>>◌, ◌==◌, ◌&&◌, not, eqb,
  ltb, arith, eq_iff,
}
use nodima_sdk.Session.{Credit, SessionReady, max_session_edges, abi_version}

-- `Credit.Validate`
unfoldable pub validate_credit : Credit → Check
validate_credit c = do
  reject (c.edge_id == "" && c.port_id == "") (errorf "credit requires an edge or port ID" [])
  reject (eqb c.batches 0) (errorf "credit requires a positive batch count" [])
  reject (ltb max_session_edges c.batches) (errorf "credit batch count exceeds its limit" [])

-- A credit for an edge or a port, of 1 to 4096 batches.
pub record IsCredit (c : Credit) : Type 0 where
  pub aimed : (c.edge_id ≢ "") ⊎ (c.port_id ≢ "")
  pub positive : 0 < c.batches
  pub bounded : c.batches ≤ 4096

pub validate_credit_iff : (c : Credit) → (validate_credit c ≡ ok tt) ↔ IsCredit c
unfolding validate_credit
validate_credit_iff c = ground (arith, eq_iff c.edge_id "", eq_iff c.port_id "")

-- `SessionReady.Validate`
unfoldable pub validate_ready : SessionReady → Check
validate_ready r =
    reject (not (r.abi == abi_version))
      (errorf "agent reports ABI %q, this service speaks %q" (str r.abi ∷ str abi_version ∷ []))

pub validate_ready_iff : (r : SessionReady) → (validate_ready r ≡ ok tt) ↔ (r.abi ≡ abi_version)
unfolding validate_ready
validate_ready_iff r = ground (arith, eq_iff r.abi abi_version)
