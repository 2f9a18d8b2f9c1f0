-- ===== src/Capability/Request.antt =====
-- What an accepted capability request is: the wire form of a tagged union.
use nodima_sdk.Base.{
  String, true, false, ◌≡◌, refl, ◌≢◌, some, none, ok, ◌⊎◌, inl, inr, arith, eq_iff, Option-cases,
  ◌==◌, ◌↔◌, sym, subst,
}
use nodima_sdk.Capability.{
  Capability, http, file_read, file_write, scratch, secret, HttpRequest, FileReadRequest,
  FileWriteRequest, ScratchRequest, SecretRequest, CapabilityRequest, validate_request,
  request_payloads, validate_payload, other, is_path_operation,
}

-- The request as a tagged union, one constructor for each kind.
pub data Payload : Type 0 where
  http_payload : HttpRequest → Payload
  file_read_payload : FileReadRequest → Payload
  file_write_payload : FileWriteRequest → Payload
  scratch_payload : ScratchRequest → Payload
  secret_payload : SecretRequest → Payload

abbrev empty_request : String → Capability → CapabilityRequest
empty_request id kind = record {
  id = id;
  kind = kind;
  http_request = none;
  file_read_request = none;
  file_write_request = none;
  scratch_request = none;
  secret_request = none;
}

-- The wire form: the kind's tag, and the one payload.
abbrev pub to_wire : String → Payload → CapabilityRequest
to_wire id (http_payload h) = record (empty_request id http) { http_request = some h }
to_wire id (file_read_payload f) = record (empty_request id file_read) {
  file_read_request = some f;
}
to_wire id (file_write_payload f) = record (empty_request id file_write) {
  file_write_request = some f;
}
to_wire id (scratch_payload s) = record (empty_request id scratch) { scratch_request = some s }
to_wire id (secret_payload s) = record (empty_request id secret) { secret_request = some s }

-- The scratch operations that name a file.
abbrev IsPathOperation : String → Type 0
IsPathOperation op =
    (op ≡ "write") ⊎ ((op ≡ "append") ⊎ ((op ≡ "read") ⊎ ((op ≡ "list") ⊎ (op ≡ "delete"))))

-- The fields that each payload requires.
abbrev pub IsComplete : Payload → Type 0
IsComplete (http_payload h) = (h.method ≢ "") × (h.url ≢ "")
IsComplete (file_read_payload f) = f.scope ≢ ""
IsComplete (file_write_payload f) = (f.scope ≢ "") × (f.operation ≢ "")
IsComplete (scratch_payload s) =
    (IsPathOperation s.operation × (s.path ≢ "")) ⊎ (s.operation ≡ "usage")
IsComplete (secret_payload s) = s.name ≢ ""

complete :
    (p : Payload) (id : String)
    → validate_payload (to_wire id p).kind (to_wire id p) ≡ ok tt
    → IsComplete p
unfolding validate_payload
complete (http_payload h) id e = ground (arith, eq_iff h.method "", eq_iff h.url "")
complete (file_read_payload f) id e = ground (arith, eq_iff f.scope "")
complete (file_write_payload f) id e = ground (arith, eq_iff f.scope "", eq_iff f.operation "")
complete (scratch_payload s) id e = ground (
  arith,
  eq_iff s.operation "",
  eq_iff s.path "",
  eq_iff s.operation "write",
  eq_iff s.operation "append",
  eq_iff s.operation "read",
  eq_iff s.operation "list",
  eq_iff s.operation "delete",
  eq_iff s.operation "usage",
)
complete (secret_payload s) id e = ground (arith, eq_iff s.name "")

path_operation_tests :
    (op : String) → IsPathOperation op → ((op == "") ≡ false) × (is_path_operation op ≡ true)
path_operation_tests op (inl e) = rw e (refl, refl)
path_operation_tests op (inr (inl e)) = rw e (refl, refl)
path_operation_tests op (inr (inr (inl e))) = rw e (refl, refl)
path_operation_tests op (inr (inr (inr (inl e)))) = rw e (refl, refl)
path_operation_tests op (inr (inr (inr (inr e)))) = rw e (refl, refl)

validate_complete :
    (p : Payload) (id : String)
    → IsComplete p
    → validate_payload (to_wire id p).kind (to_wire id p) ≡ ok tt
unfolding validate_payload
validate_complete (http_payload h) id e = ground (arith, eq_iff h.method "", eq_iff h.url "")
validate_complete (file_read_payload f) id e = ground (arith, eq_iff f.scope "")
validate_complete (file_write_payload f) id e =
    ground (arith, eq_iff f.scope "", eq_iff f.operation "")
validate_complete (scratch_payload s) id (inl (op, path)) =
    let (a, b) = path_operation_tests s.operation op in rw (a, b) (ground (arith, eq_iff s.path ""))
validate_complete (scratch_payload s) id (inr usage) = rw usage refl
validate_complete (secret_payload s) id e = ground (arith, eq_iff s.name "")

-- With one payload, and that of the kind, the record is the wire form of the payload.
wire_form :
    (k : Capability) (r : CapabilityRequest)
    → r.kind ≡ k
    → request_payloads r ≡ 1
    → validate_payload k r ≡ ok tt
    → (p : Payload) × (r ≡ to_wire r.id p)
unfolding validate_payload
wire_form http r e n v = elim (Option-cases r.http_request) [
  | inl p ↦ cc (rw p at v)
  | inr (h, p) ↦ (http_payload h, ground arith)
]
wire_form file_read r e n v = elim (Option-cases r.file_read_request) [
  | inl p ↦ cc (rw p at v)
  | inr (h, p) ↦ (file_read_payload h, ground arith)
]
wire_form file_write r e n v = elim (Option-cases r.file_write_request) [
  | inl p ↦ cc (rw p at v)
  | inr (h, p) ↦ (file_write_payload h, ground arith)
]
wire_form scratch r e n v = elim (Option-cases r.scratch_request) [
  | inl p ↦ cc (rw p at v)
  | inr (h, p) ↦ (scratch_payload h, ground arith)
]
wire_form secret r e n v = elim (Option-cases r.secret_request) [
  | inl p ↦ cc (rw p at v)
  | inr (h, p) ↦ (secret_payload h, ground arith)
]
wire_form (other k) r e n v = cc

wire_accepted :
    (id : String) (p : Payload) → id ≢ "" → IsComplete p → validate_request (to_wire id p) ≡ ok tt
unfolding validate_request
wire_accepted id (http_payload h) n c =
    ground (arith, eq_iff id "", validate_complete (http_payload h) id c)
wire_accepted id p n c = ground (arith, eq_iff id "", validate_complete p id c)

request_checks :
    (r : CapabilityRequest)
    → validate_request r ≡ ok tt
    → (r.id ≢ "") × (request_payloads r ≡ 1) × (validate_payload r.kind r ≡ ok tt)
unfolding validate_request
request_checks r h = ground (arith, eq_iff r.id "")

-- A request with an ID, that is the wire form of a complete payload.
abbrev pub IsRequest : CapabilityRequest → Type 0
IsRequest r = (r.id ≢ "") × (p : Payload) × (r ≡ to_wire r.id p) × IsComplete p

-- A request is accepted exactly when its ID is not empty and it is the wire form of a payload
-- that has the fields its kind requires; so an accepted request has its kind's payload and no
-- other.
pub validate_request_iff : (r : CapabilityRequest) → (validate_request r ≡ ok tt) ↔ IsRequest r
validate_request_iff r = (accepted, passed)
  where
    accepted : validate_request r ≡ ok tt → IsRequest r
    accepted h =
        let (named, one, fits) = request_checks r h in
        let (p, e) = wire_form r.kind r refl one fits in
        (named, p, e, complete p r.id (subst (λ q. validate_payload q.kind q ≡ ok tt) e fits))

    passed : IsRequest r → validate_request r ≡ ok tt
    passed (named, p, e, fields) =
        subst (λ q. validate_request q ≡ ok tt) (sym e) (wire_accepted r.id p named fields)
