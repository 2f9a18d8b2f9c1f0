-- ===== src/Capability.antt =====
-- runner/v1/message.go and runner/v1/manifest.go: the host capabilities, their requests and
-- responses, and the validation of both. A Go string is a `String`; a byte slice is a list of
-- numbers below 256; a pointer is an `Option`; a map is the list of its entries.
pub mod Request
pub mod Response
mod Tests
use nodima_sdk.Base.{
  ℕ, String, Bool, Option, List, [], ◌∷◌, Check, ok, err, errorf, str, reject, ◌>>◌, is_some,
  is_none, ◌==◌, ◌||◌, ◌&&◌, suc, eqb, if◌then◌else◌, not, some, none, true, false,
}
use nodima_sdk.Base.Int.{ℤ, below, above}

-- A Go string type with named constants; `other` is a text that is none of them.
pub data Capability : Type 0 where
  http file_read file_write scratch secret : Capability
  other : String → Capability

pub record Failure : Type 0 where
  pub code : String
  pub message : String

pub record HttpRequest : Type 0 where
  pub method : String
  pub url : String
  pub headers : List (String × List String)
  pub body : List ℕ

pub record HttpResponse : Type 0 where
  pub status_code : ℤ
  pub headers : List (String × List String)
  pub body : List ℕ
  pub final_url : String

pub record FileReadRequest : Type 0 where
  pub scope : String
  pub path : String
  pub list : Bool

pub record FileEntry : Type 0 where
  pub name : String
  pub size : ℕ
  pub directory : Bool

pub record FileReadResponse : Type 0 where
  pub content : List ℕ
  pub entries : List FileEntry

pub record FileWriteRequest : Type 0 where
  pub scope : String
  pub operation : String
  pub transaction_id : String
  pub path : String
  pub content : List ℕ
  pub host_path : String

pub record FileWriteResponse : Type 0 where
  pub transaction_id : String
  pub host_path : String
  pub artifact_name : String

pub record ScratchRequest : Type 0 where
  pub operation : String
  pub path : String
  pub content : List ℕ
  pub offset : ℕ
  pub limit : ℕ

pub record ScratchUsage : Type 0 where
  pub current_bytes : ℕ
  pub peak_bytes : ℕ
  pub current_files : ℕ
  pub peak_files : ℕ
  pub max_bytes : ℕ
  pub max_files : ℕ

pub record ScratchResponse : Type 0 where
  pub content : List ℕ
  pub entries : List FileEntry
  pub size : ℕ
  pub eof : Bool
  pub usage : Option ScratchUsage

pub record SecretRequest : Type 0 where
  pub name : String

pub record SecretResponse : Type 0 where
  pub value : String

pub record CapabilityRequest : Type 0 where
  pub id : String
  pub kind : Capability
  pub http_request : Option HttpRequest
  pub file_read_request : Option FileReadRequest
  pub file_write_request : Option FileWriteRequest
  pub scratch_request : Option ScratchRequest
  pub secret_request : Option SecretRequest

pub record CapabilityResponse : Type 0 where
  pub id : String
  pub kind : Capability
  pub http_response : Option HttpResponse
  pub file_read_response : Option FileReadResponse
  pub file_write_response : Option FileWriteResponse
  pub scratch_response : Option ScratchResponse
  pub secret_response : Option SecretResponse
  pub error : Option Failure

-- `Capability.Validate`
unfoldable pub validate_kind : Capability → Check
validate_kind (other c) = err (errorf "unknown runner capability %q" (str c ∷ []))
validate_kind http = ok tt
validate_kind file_read = ok tt
validate_kind file_write = ok tt
validate_kind scratch = ok tt
validate_kind secret = ok tt

-- How many of the tests hold: the loop that counts `present`.
abbrev pub count_present : List Bool → ℕ
count_present [] = 0
count_present (true ∷ bs) = suc (count_present bs)
count_present (false ∷ bs) = count_present bs

abbrev is_path_operation : String → Bool
is_path_operation op =
    op == "write" || (op == "append" || (op == "read" || (op == "list" || op == "delete")))

-- The cases of the switch on `r.Kind`, each on the payload that it reads.
validate_http_request : Option HttpRequest → Check
validate_http_request none = err (errorf "HTTP capability request requires a method and URL" [])
validate_http_request (some h) =
    reject (h.method == "" || h.url == "")
      (errorf "HTTP capability request requires a method and URL" [])

validate_file_read_request : Option FileReadRequest → Check
validate_file_read_request none = err (errorf "file-read capability request requires a scope" [])
validate_file_read_request (some f) =
    reject (f.scope == "") (errorf "file-read capability request requires a scope" [])

validate_file_write_request : Option FileWriteRequest → Check
validate_file_write_request none =
    err (errorf "file-write capability request requires a scope and operation" [])
validate_file_write_request (some f) =
    reject (f.scope == "" || f.operation == "")
      (errorf "file-write capability request requires a scope and operation" [])

validate_scratch_request : Option ScratchRequest → Check
validate_scratch_request none = err (errorf "scratch capability request requires an operation" [])
validate_scratch_request (some s) = do
  reject (s.operation == "") (errorf "scratch capability request requires an operation" [])
  if is_path_operation s.operation
      then reject (s.path == "") (errorf "scratch capability request requires a path" [])
      else reject (not (s.operation == "usage"))
          (errorf "unsupported scratch operation %q" (str s.operation ∷ []))

validate_secret_request : Option SecretRequest → Check
validate_secret_request none = err (errorf "secret capability request requires a name" [])
validate_secret_request (some s) =
    reject (s.name == "") (errorf "secret capability request requires a name" [])

unfoldable pub validate_payload : Capability → CapabilityRequest → Check
unfolding validate_http_request validate_file_read_request validate_file_write_request
    validate_scratch_request validate_secret_request
validate_payload http r = validate_http_request r.http_request
validate_payload file_read r = validate_file_read_request r.file_read_request
validate_payload file_write r = validate_file_write_request r.file_write_request
validate_payload scratch r = validate_scratch_request r.scratch_request
validate_payload secret r = validate_secret_request r.secret_request
validate_payload (other k) r = err (errorf "unsupported capability request kind %q" (str k ∷ []))

abbrev pub request_payloads : CapabilityRequest → ℕ
request_payloads r = count_present (
    is_some r.http_request
    ∷ is_some r.file_read_request
    ∷ is_some r.file_write_request
    ∷ is_some r.scratch_request
    ∷ is_some r.secret_request
    ∷ [])

-- `CapabilityRequest.Validate`
unfoldable pub validate_request : CapabilityRequest → Check
validate_request r = do
  reject (r.id == "") (errorf "capability request requires an ID" [])
  reject (not (eqb (request_payloads r) 1))
      (errorf "capability request requires exactly one payload" [])
  validate_payload r.kind r

-- `matches`: the result of the response's kind is there.
abbrev pub matches_kind : Capability → CapabilityResponse → Bool
matches_kind http r = is_some r.http_response
matches_kind file_read r = is_some r.file_read_response
matches_kind file_write r = is_some r.file_write_response
matches_kind scratch r = is_some r.scratch_response
matches_kind secret r = is_some r.secret_response
matches_kind (other k) r = false

unfoldable pub check_error : Option Failure → Check
check_error none = ok tt
check_error (some e) =
    reject (e.code == "" || e.message == "")
      (errorf "capability response error requires a code and message" [])

unfoldable pub check_http_response : Option HttpResponse → Check
check_http_response none = ok tt
check_http_response (some h) =
    reject (below h.status_code 100 || (above h.status_code 999 || h.final_url == ""))
      (errorf "HTTP capability response has invalid status or final URL" [])

abbrev pub response_results : CapabilityResponse → ℕ
response_results r = count_present (
    is_some r.http_response
    ∷ is_some r.file_read_response
    ∷ is_some r.file_write_response
    ∷ is_some r.scratch_response
    ∷ is_some r.secret_response
    ∷ is_some r.error
    ∷ [])

-- `CapabilityResponse.Validate`
unfoldable pub validate_response : CapabilityResponse → Check
validate_response r = do
  reject (r.id == "") (errorf "capability response requires an ID" [])
  validate_kind r.kind
  reject (not (eqb (response_results r) 1))
      (errorf "capability response requires exactly one result or error" [])
  check_error r.error
  check_http_response r.http_response
  reject (is_none r.error && not (matches_kind r.kind r))
      (errorf "capability response result does not match its kind" [])
