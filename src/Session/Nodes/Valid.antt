-- ===== src/Session/Nodes/Valid.antt =====
-- When the nodes of a session are accepted.
use nodima_sdk.Base.{
  ℕ, ◌+◌, ◌^◌, ◌≤◌, String, len, ◌≡◌, ◌≢◌, ◌⊎◌, ◌↔◌, Option, some, none, List, [], ◌∷◌, map, length,
  All, ok, arith, eq_iff, Result, Result-cases, inl, inr, Occurs, IsFresh, contains_iff, add_all,
}
use nodima_sdk.Capability.{Capability, other, validate_kind}
use nodima_sdk.Session.{SessionNode, SpillLimits}
use nodima_sdk.Session.Limits.{with_defaults, IsUsable, validate_spill_limits_iff}
use nodima_sdk.Session.Nodes.{
  allowed_secrets, validate_digest, count_secrets, validate_secrets, validate_capabilities,
  validate_spill, validate_node, validate_nodes,
}

abbrev pub IsKnown : Capability → Type 0
IsKnown (other c) = ⊥
IsKnown _ = Unit

-- The bytes of the names and values of the secrets.
abbrev secret_bytes : List (String × String) → ℕ
secret_bytes [] = 0
secret_bytes ((name, value) ∷ rest) = len name + len value + secret_bytes rest

abbrev IsGranted : List String → (String × String) → Type 0
IsGranted allowed (name, value) = Occurs name allowed

-- A package installed by digest: 64 bytes of digest, and a grant if it has capabilities.
abbrev HasDigest : SessionNode → Type 0
HasDigest n = (len n.package_digest ≡ 64) × ((n.capabilities ≡ []) ⊎ (n.runner_grant ≢ none))

abbrev MaySpill : SessionNode → Option SpillLimits → Type 0
MaySpill n none = Unit
MaySpill n (some l) = (n.package_digest ≡ "") × IsUsable (with_defaults l)

pub record IsRunnable (n : SessionNode) : Type 0 where
  pub packaged : (n.package_id ≢ "") × (n.version ≢ "")
  pub digest : (n.package_digest ≡ "") ⊎ HasDigest n
  pub few_secrets : length n.secret_values ≤ 256
  pub granted : All (IsGranted (allowed_secrets n.runner_grant)) n.secret_values
  pub small_secrets : secret_bytes n.secret_values ≤ 2 ^ 20
  pub capable : All IsKnown n.capabilities
  pub spill : MaySpill n n.spill_limits

abbrev pub ids_of : List SessionNode → List String
ids_of = map (λ n. n.node_id)

digest_iff :
    (n : SessionNode) → (validate_digest n ≡ ok tt) ↔ ((n.package_digest ≡ "") ⊎ HasDigest n)
unfolding validate_digest
digest_iff n = ground (arith, eq_iff n.package_digest "")

count_iff :
    (n : SessionNode) (allowed : List String) (total : ℕ) (secrets : List (String × String))
    (sum : ℕ)
    → (count_secrets n allowed total secrets ≡ ok sum)
      ↔ (All (IsGranted allowed) secrets × (sum ≡ total + secret_bytes secrets))
unfolding count_secrets
count_iff n allowed total [] sum = ground arith
count_iff n allowed total ((name, value) ∷ rest) sum = ground (
  arith,
  contains_iff allowed name,
  count_iff n allowed (total + (len name + len value)) rest sum,
)

capabilities_iff :
    (n : SessionNode) (cs : List Capability) → (validate_capabilities n cs ≡ ok tt) ↔ All IsKnown cs
unfolding validate_capabilities validate_kind
capabilities_iff n [] = ground arith
capabilities_iff n (c ∷ cs) = ground (arith, capabilities_iff n cs)

spill_iff : (n : SessionNode) (l : Option SpillLimits) → (validate_spill n l ≡ ok tt) ↔ MaySpill n l
unfolding validate_spill
spill_iff n none = ground arith
spill_iff n (some l) = ground (arith, validate_spill_limits_iff l, eq_iff n.package_digest "")

secrets_iff :
    (n : SessionNode)
    → (validate_secrets n ≡ ok tt) ↔ (
        (length n.secret_values ≤ 256)
        × All (IsGranted (allowed_secrets n.runner_grant)) n.secret_values
        × (secret_bytes n.secret_values ≤ 2 ^ 20))
unfolding validate_secrets
secrets_iff n = elim (Result-cases counted) [
  | inl (sum, e) ↦
      ground (arith, count_iff n (allowed_secrets n.runner_grant) 0 n.secret_values sum)
  | inr (x, e) ↦
      let total = secret_bytes n.secret_values in
      ground (arith, count_iff n (allowed_secrets n.runner_grant) 0 n.secret_values total)
]
  where
    counted : Result ℕ
    counted = count_secrets n (allowed_secrets n.runner_grant) 0 n.secret_values

pub validate_node_iff : (n : SessionNode) → (validate_node n ≡ ok tt) ↔ IsRunnable n
unfolding validate_node
validate_node_iff n = ground (
  arith,
  eq_iff n.package_id "",
  eq_iff n.version "",
  digest_iff n,
  secrets_iff n,
  capabilities_iff n n.capabilities,
  spill_iff n n.spill_limits,
)

-- What the nodes of a session must be, given the IDs in use.
pub record AreNodes (seen : List String) (ns : List SessionNode) : Type 0 where
  pub named : All (λ n. n.node_id ≢ "") ns
  pub fresh : IsFresh seen (ids_of ns)
  pub runnable : All IsRunnable ns

-- The nodes are accepted, with their IDs entered into the set, exactly when every node has an ID
-- that is not yet in use, and is runnable: it names a package and a version, a digest has 64 bytes
-- and comes with a grant if there are capabilities, its secrets are at most 256, all granted and
-- at most 1 MiB, its capabilities are known, and spill limits are usable and only given without a
-- digest.
pub validate_nodes_iff :
    (seen : List String) (ns : List SessionNode) (ids : List String)
    → (validate_nodes seen ns ≡ ok ids) ↔ (AreNodes seen ns × (ids ≡ add_all seen (ids_of ns)))
unfolding validate_nodes
validate_nodes_iff seen [] ids = ground arith
validate_nodes_iff seen (n ∷ ns) ids =
    ground (
      arith,
      eq_iff n.node_id "",
      validate_node_iff n,
      validate_nodes_iff (n.node_id ∷ seen) ns ids,
    )
