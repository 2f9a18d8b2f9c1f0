-- ===== src/Sdk/Awaiting.antt =====
-- go/sdk.go: the loop that waits for a response, on the incoming messages alone.
use nodima_sdk.Base.{
  ℕ, suc, String, true, false, Option, none, some, List, [], ◌∷◌, ◌++◌, ◌≡◌, refl, Result, ok, err,
  arith, inl, inr, ap, sym, ◌∙◌, subst, eq_iff, All, map, ◌⊎◌, ◌↔◌,
}
use mathlib.Core.List.{append_assoc, append-nil}
use nodima_sdk.Capability.{CapabilityResponse}
use nodima_sdk.Message.{is_capability_response}
use nodima_sdk.Message.Types.{Message}
use nodima_sdk.Sdk

abbrev pub IsInput : Message → Type 0
IsInput m = is_capability_response m.type ≡ false

-- The answer to the request `id` stands behind the messages `front`.
abbrev pub IsAnswer : String → Message → CapabilityResponse → Type 0
IsAnswer id m r =
    (is_capability_response m.type ≡ true)
    × (m.capability_response ≡ some r)
    × (r.id ≡ id)
    × (r.error ≡ none)

pub check_response_iff :
    (id : String) (o : Option CapabilityResponse) (r : CapabilityResponse)
    → (Sdk.check_response id o ≡ ok r) ↔ ((o ≡ some r) × (r.id ≡ id) × (r.error ≡ none))
unfolding Sdk.check_response
check_response_iff id none r = ground arith
check_response_iff id (some q) r = ground (arith, eq_iff q.id id, eq_iff r.id id)

-- The message that ends the loop, and what the loop leaves.
abbrev pub Found :
    String → CapabilityResponse → List (Result Message) → List Message → Sdk.Inbox → Type 0
Found id r incoming buffered inbox =
    (front : List Message) × (m : Message) × All IsInput front
    × IsAnswer id m r
    × (incoming ≡ map ok front ++ (ok m ∷ inbox.incoming))
    × (inbox.buffered ≡ buffered ++ front)

Found-here :
    (id : String) (m : Message) (r : CapabilityResponse) (rest : List (Result Message))
    (buffered : List Message)
    → IsAnswer id m r
    → Found id r (ok m ∷ rest) buffered (record { incoming = rest; buffered = buffered })
Found-here id m r rest buffered a = ([], m, tt, a, refl, sym (append-nil buffered))

Found-later :
    (id : String) (m : Message) (r : CapabilityResponse) (rest : List (Result Message))
    (buffered : List Message) (inbox : Sdk.Inbox)
    → IsInput m
    → Found id r rest (buffered ++ (m ∷ [])) inbox
    → Found id r (ok m ∷ rest) buffered inbox
Found-later id m r rest buffered inbox i (front, a, all, answer, split, kept) = (
  m ∷ front,
  a,
  (i, all),
  answer,
  ap (λ l. ok m ∷ l) split,
  kept ∙ append_assoc buffered (m ∷ []) front,
)

-- What a run that returns a response did with the first message.
await-step :
    (ctx : Sdk.Context) (k : ℕ) (id : String) (m : Message) (rest : List (Result Message))
    (buffered : List Message) (r : CapabilityResponse) (inbox : Sdk.Inbox)
    → Sdk.await_response ctx k id (ok m ∷ rest) buffered ≡ (ok r, inbox)
    → ((is_capability_response m.type ≡ true)
        × (Sdk.check_response id m.capability_response ≡ ok r)
        × (inbox ≡ record { incoming = rest; buffered = buffered }))
      ⊎ (IsInput m
          × (Sdk.await_response ctx (suc k) id rest (buffered ++ (m ∷ [])) ≡ (ok r, inbox)))
unfolding Sdk.await_response
await-step ctx k id m rest buffered r inbox h = ground arith

pub await_response-Found :
    (ctx : Sdk.Context) (k : ℕ) (id : String) (incoming : List (Result Message))
    (buffered : List Message) (r : CapabilityResponse) (inbox : Sdk.Inbox)
    → Sdk.await_response ctx k id incoming buffered ≡ (ok r, inbox)
    → Found id r incoming buffered inbox
unfolding Sdk.await_response
await_response-Found ctx k id [] buffered r inbox h = ground arith
await_response-Found ctx k id (err x ∷ rest) buffered r inbox h = ground arith
await_response-Found ctx k id (ok m ∷ rest) buffered r inbox h =
    elim (await-step ctx k id m rest buffered r inbox h) [
      | inl (t, c, e) ↦ subst (Found id r (ok m ∷ rest) buffered) (sym e) (
          let (o, i, f) = (check_response_iff id m.capability_response r).0 c in
          Found-here id m r rest buffered (t, o, i, f))
      | inr (i, later) ↦
          Found-later id m r rest buffered inbox i
            (await_response-Found ctx (suc k) id rest (buffered ++ (m ∷ [])) r inbox later)
    ]

-- A context that is never cancelled.
abbrev pub IsOpen : Sdk.Context → Type 0
IsOpen ctx = (k : ℕ) → ctx k ≡ none

-- The first response among the messages decides the call; those before it are buffered.
pub await_response-first :
    (ctx : Sdk.Context) (k : ℕ) (id : String) (front : List Message) (m : Message)
    (rest : List (Result Message)) (buffered : List Message)
    → IsOpen ctx
    → All IsInput front
    → is_capability_response m.type ≡ true
    → Sdk.await_response ctx k id (map ok front ++ (ok m ∷ rest)) buffered ≡ (
      Sdk.check_response id m.capability_response,
      record { incoming = rest; buffered = buffered ++ front },
    )
unfolding Sdk.await_response
await_response-first ctx k id [] m rest buffered live all t =
    ground (arith, live k, append-nil buffered)
await_response-first ctx k id (x ∷ front) m rest buffered live (i, all) t =
    let ih = await_response-first ctx (suc k) id front m rest (buffered ++ (x ∷ [])) live all t in
    ground (arith, live k, append_assoc buffered (x ∷ []) front)
