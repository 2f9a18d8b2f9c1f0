-- ===== src/Message/Valid.antt =====
-- When a message is accepted.
use nodima_sdk.Base.{
  ◌≤◌, ◌<◌, String, ◌≡◌, ◌≢◌, ◌⊎◌, ◌↔◌, false, Option, some, none, Check, ok, arith, eq_iff,
  Option-cases, inl, inr,
}
use nodima_sdk.Capability.{Failure, validate_request, validate_response}
use nodima_sdk.Batch.{Batch}
use nodima_sdk.Session.Start.{validate_start}
use nodima_sdk.Session.Connect.{validate_connect}
use nodima_sdk.Session.Credits.{validate_credit, validate_ready}
use nodima_sdk.Capability.Request.{IsRequest, validate_request_iff}
use nodima_sdk.Capability.Response.{IsResponse, validate_response_iff}
use nodima_sdk.Batch.Valid.{IsValid, validate_batch_iff}
use nodima_sdk.Session.{SessionCompleted, EdgeStats, abi_version}
use nodima_sdk.Session.Start.Valid.{HasSizes, IsGraph, validate_start_iff}
use nodima_sdk.Session.Connect.Valid.{IsTopology, validate_connect_iff}
use nodima_sdk.Session.Preview.{IsSnapshot, validate_preview_iff}
use nodima_sdk.Session.Credits.{IsCredit, validate_credit_iff, validate_ready_iff}
use nodima_sdk.Message.Types.{
  MessageType, input_batch, output_batch, stop_input, failed, log, progress, host_resources,
  batch_complete, capability_request, capability_response, session_start, session_ready,
  session_connect, session_completed, edge_stats, credit, other, Message, MemoryResources,
  HostResources, Log,
}
use nodima_sdk.Message.Content.{
  validate_host_resources, validate_content, present, check_batch, check_completion, check_failure,
  check_stats, check_log,
}
use nodima_sdk.Message.{validate_placement, validate_message}

-- The pointer is not nil, and what it points to has the property.
abbrev pub Given {ℓ} : {A : Type ℓ} → (A → Type 0) → Option A → Type 0
Given P none = ⊥
Given P (some a) = P a

-- The pointer is nil, or what it points to has the property.
abbrev IfGiven {ℓ} : {A : Type ℓ} → (A → Type 0) → Option A → Type 0
IfGiven P none = Unit
IfGiven P (some a) = P a

abbrev IsMemory : MemoryResources → Type 0
IsMemory r = (0 < r.total_bytes) × (r.used_bytes ≤ r.total_bytes)

-- A sample of the host: the start or the end or neither, with a memory reading that fits.
abbrev IsSample : HostResources → Type 0
IsSample h = ((h.start ≡ false) ⊎ (h.end ≡ false)) × Given IsMemory h.memory

abbrev IsFailure : Failure → Type 0
IsFailure e = (e.code ≢ "") × (e.message ≢ "")

-- The content that each type of message requires.
abbrev pub IsContent : MessageType → Message → Type 0
IsContent stop_input m = m.port_id ≢ ""
IsContent batch_complete m = m.sequence ≢ 0
IsContent session_start m = Given (λ s. HasSizes s × IsGraph s) m.session_start
IsContent session_ready m = Given (λ r. r.abi ≡ abi_version) m.session_ready
IsContent session_connect m = Given IsTopology m.session_connect
IsContent session_completed m = IfGiven (λ c. IfGiven IsSnapshot c.preview) m.session_completed
IsContent edge_stats m = Given (λ s. s.edge_id ≢ "") m.edge_stats
IsContent credit m = Given IsCredit m.credit
IsContent input_batch m = Given IsValid m.batch
IsContent output_batch m = Given IsValid m.batch
IsContent failed m = Given IsFailure m.error
IsContent log m = Given (λ l. l.message ≢ "") m.log
IsContent progress m = m.progress ≢ none
IsContent host_resources m = Given IsSample m.host_resources
IsContent capability_request m = Given IsRequest m.capability_request
IsContent capability_response m = Given IsResponse m.capability_response
IsContent (other t) m = ⊥
IsContent _ m = Unit

-- The content that only some types may carry; the other content may occur under every type.
pub record IsPlaced (m : Message) : Type 0 where
  pub batch : (m.batch ≡ none) ⊎ ((m.type ≡ input_batch) ⊎ (m.type ≡ output_batch))
  pub capability_request : (m.capability_request ≡ none) ⊎ (m.type ≡ capability_request)
  pub capability_response : (m.capability_response ≡ none) ⊎ (m.type ≡ capability_response)
  pub session_start : (m.session_start ≡ none) ⊎ (m.type ≡ session_start)
  pub session_ready : (m.session_ready ≡ none) ⊎ (m.type ≡ session_ready)
  pub session_connect : (m.session_connect ≡ none) ⊎ (m.type ≡ session_connect)
  pub session_completed : (m.session_completed ≡ none) ⊎ (m.type ≡ session_completed)
  pub credit : (m.credit ≡ none) ⊎ (m.type ≡ credit)
  pub edge_stats : (m.edge_stats ≡ none) ⊎ (m.type ≡ edge_stats)
  pub sequence :
      (m.sequence ≡ 0)
      ⊎ ((m.type ≡ input_batch) ⊎ ((m.type ≡ output_batch) ⊎ (m.type ≡ batch_complete)))

IsSample-iff : (h : HostResources) → (validate_host_resources h ≡ ok tt) ↔ IsSample h
unfolding validate_host_resources
IsSample-iff h = ground arith

placement_iff : (m : Message) → (validate_placement m ≡ ok tt) ↔ IsPlaced m
unfolding validate_placement
placement_iff m = ground arith

Given-iff {ℓ} :
    {A : Type ℓ} (P : A → Type 0) (text : String) (check : A → Check) (o : Option A)
    → ((a : A) → (check a ≡ ok tt) ↔ P a)
    → (present text check o ≡ ok tt) ↔ Given P o
Given-iff P text check none h = ground arith
Given-iff P text check (some a) h = h a

batch_iff : (t : MessageType) (b : Option Batch) → (check_batch t b ≡ ok tt) ↔ Given IsValid b
unfolding check_batch
batch_iff t none = ground arith
batch_iff t (some b) = ground (arith, validate_batch_iff b)

completion_iff :
    (c : Option SessionCompleted)
    → (check_completion c ≡ ok tt) ↔ IfGiven (λ c. IfGiven IsSnapshot c.preview) c
unfolding check_completion
completion_iff none = ground arith
completion_iff (some c) = elim (Option-cases c.preview) [
  | inl e ↦ rw e (ground arith)
  | inr (p, e) ↦ rw e (validate_preview_iff p)
]

stats_iff : (s : Option EdgeStats) → (check_stats s ≡ ok tt) ↔ Given (λ s. s.edge_id ≢ "") s
unfolding check_stats
stats_iff none = ground arith
stats_iff (some s) = ground (arith, eq_iff s.edge_id "")

failure_iff : (e : Option Failure) → (check_failure e ≡ ok tt) ↔ Given IsFailure e
unfolding check_failure
failure_iff none = ground arith
failure_iff (some e) = ground (arith, eq_iff e.code "", eq_iff e.message "")

log_iff : (l : Option Log) → (check_log l ≡ ok tt) ↔ Given (λ l. l.message ≢ "") l
unfolding check_log
log_iff none = ground arith
log_iff (some l) = ground (arith, eq_iff l.message "")

IsContent-iff : (t : MessageType) (m : Message) → (validate_content t m ≡ ok tt) ↔ IsContent t m
unfolding validate_content
IsContent-iff stop_input m = ground (arith, eq_iff m.port_id "")
IsContent-iff session_start m = Given-iff _ _ validate_start m.session_start validate_start_iff
IsContent-iff session_ready m = Given-iff _ _ validate_ready m.session_ready validate_ready_iff
IsContent-iff session_connect m =
    Given-iff _ _ validate_connect m.session_connect validate_connect_iff
IsContent-iff session_completed m = completion_iff m.session_completed
IsContent-iff credit m = Given-iff _ _ validate_credit m.credit validate_credit_iff
IsContent-iff input_batch m = batch_iff input_batch m.batch
IsContent-iff output_batch m = batch_iff output_batch m.batch
IsContent-iff host_resources m = Given-iff _ _ validate_host_resources m.host_resources IsSample-iff
IsContent-iff capability_request m =
    Given-iff _ _ validate_request m.capability_request validate_request_iff
IsContent-iff capability_response m =
    Given-iff _ _ validate_response m.capability_response validate_response_iff
IsContent-iff failed m = failure_iff m.error
IsContent-iff edge_stats m = stats_iff m.edge_stats
IsContent-iff log m = log_iff m.log
IsContent-iff progress m = ground arith
IsContent-iff batch_complete m = ground arith
IsContent-iff _ m = ground arith

-- A message is accepted exactly when it speaks this ABI, has the content that its type requires, and
-- is placed right: a capability request or response, a start, a ready answer, a topology or a
-- completion of a session, a credit and edge statistics occur only under their own type, a batch only
-- under the two batch types, and a sequence only under these and batch completions. A message of an
-- unknown type is refused. Configuration, error, log, progress and host resources may occur under
-- every type; the last four are looked at only under their own.
pub validate_message_iff :
    (m : Message)
    → (validate_message m ≡ ok tt) ↔ ((m.abi ≡ abi_version) × IsPlaced m × IsContent m.type m)
unfolding validate_message
validate_message_iff m =
    ground (arith, eq_iff m.abi abi_version, placement_iff m, IsContent-iff m.type m)
