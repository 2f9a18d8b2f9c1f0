-- ===== src/Session/Nodes.antt =====
-- runner/v1/session.go: the part of `SessionStart.Validate` about the nodes.
pub mod Valid
use nodima_sdk.Base.{
  ℕ, ◌+◌, ◌^◌, String, len, Bool, not, Option, some, none, List, [], ◌∷◌, length, is_empty, is_some,
  is_none, Check, Result, ok, err, errorf, wrap, str, reject, ◌>>=◌, ◌>>◌, ◌==◌, ◌||◌, ◌&&◌, eqb,
  ltb, contains,
}
use nodima_sdk.Capability.{Capability, validate_kind}
use nodima_sdk.Session.{SessionNode, RunnerGrant, SpillLimits}
use nodima_sdk.Session.Limits.{validate_spill_limits}

-- `if cond { return fmt.Errorf(format, node.NodeID) }`
abbrev pub reject_node : Bool → String → SessionNode → Check
reject_node b format n = reject b (errorf format (str n.node_id ∷ []))

-- `node.RunnerGrant.Secrets`, and none without a grant.
abbrev pub allowed_secrets : Option RunnerGrant → List String
allowed_secrets none = []
allowed_secrets (some g) = g.secrets

-- The checks on the digest, `node.PackageDigest != ""`.
unfoldable pub validate_digest : SessionNode → Check
validate_digest n = do
  reject_node (not (n.package_digest == "") && not (eqb (len n.package_digest) 64))
      "session_start node %q has an invalid package digest" n
  reject_node
      (not (n.package_digest == "") && (not (is_empty n.capabilities) && is_none n.runner_grant))
      "session_start node %q requires a runner grant" n

-- The loop over the secret values; the result is `secretBytes`.
unfoldable pub count_secrets : SessionNode → List String → ℕ → List (String × String) → Result ℕ
count_secrets n allowed total [] = ok total
count_secrets n allowed total ((name, value) ∷ rest) = do
  reject_node (not (contains allowed name)) "session_start node %q includes an ungranted secret" n
  count_secrets n allowed (total + (len name + len value)) rest

unfoldable pub validate_secrets : SessionNode → Check
validate_secrets n = do
  reject_node (ltb 256 (length n.secret_values)) "session_start node %q has too many secret values"
      n
  total ← count_secrets n (allowed_secrets n.runner_grant) 0 n.secret_values
  reject_node (ltb (2 ^ 20) total) "session_start node %q secret values exceed the byte limit" n

unfoldable pub validate_capabilities : SessionNode → List Capability → Check
validate_capabilities n [] = ok tt
validate_capabilities n (c ∷ cs) = do
  wrap "session_start node %q: %w" (str n.node_id ∷ []) (validate_kind c)
  validate_capabilities n cs

unfoldable pub validate_spill : SessionNode → Option SpillLimits → Check
validate_spill n none = ok tt
validate_spill n (some l) = do
  reject_node (not (n.package_digest == ""))
      "session_start node %q gives trusted spill limits to an installed package" n
  wrap "session_start node %q: %w" (str n.node_id ∷ []) (validate_spill_limits l)

-- One round of the loop over the nodes, below the registration of the node's ID.
unfoldable pub validate_node : SessionNode → Check
validate_node n = do
  reject_node (n.package_id == "" || n.version == "")
      "session_start node %q requires a package and version" n
  validate_digest n
  validate_secrets n
  validate_capabilities n n.capabilities
  validate_spill n n.spill_limits

-- The loop over the nodes: the result is the map of the node IDs.
unfoldable pub validate_nodes : List String → List SessionNode → Result (List String)
validate_nodes nodes [] = ok nodes
validate_nodes nodes (n ∷ ns) = do
  reject (n.node_id == "") (errorf "session_start node requires an ID" [])
  reject_node (contains nodes n.node_id) "session_start repeats node %q" n
  validate_node n
  validate_nodes (n.node_id ∷ nodes) ns
