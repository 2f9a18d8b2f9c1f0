-- ===== src/Sdk/Refusals.antt =====
-- go/sdk.go: capability calls, those that are refused before they do anything among them.
use nodima_sdk.Base.{none, ◌≡◌, ◌≢◌, ◌⊎◌, ◌+◌, ◌%◌, ◌^◌, arith, eq_iff}
use nodima_sdk.Base.Action.{Action}
use nodima_sdk.Capability.{CapabilityRequest}
use nodima_sdk.Message.Types.{Message}
use nodima_sdk.Sdk

module _ {Out : Type 0} (encode_message : Message → Action Out (Unit {0})) where
  -- When the context is cancelled or the session has no execution ID or no node ID, a capability
  -- call leaves the session as it was; in every other case, whatever the encoder and the host do, it
  -- counts exactly one request and keeps the session's identity.
  pub capability_counts :
      (ctx : Sdk.Context) (q : CapabilityRequest) (s : Sdk.Session Out)
      → (let t = (Sdk.capability Out encode_message ctx q s).1 in
          (((ctx 0 ≢ none) ⊎ ((s.execution_id ≡ "") ⊎ (s.node_id ≡ ""))) × (t ≡ s))
          ⊎ ((ctx 0 ≡ none)
              × (s.execution_id ≢ "")
              × (s.node_id ≢ "")
              × (t.next_request_id ≡ (s.next_request_id + 1) % 2 ^ 64)
              × (t.execution_id ≡ s.execution_id)
              × (t.node_id ≡ s.node_id)))
  unfolding Sdk.capability Sdk.send Sdk.await
  capability_counts ctx q s = ground (arith, eq_iff s.execution_id "", eq_iff s.node_id "")
