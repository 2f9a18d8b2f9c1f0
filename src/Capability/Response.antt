-- ===== src/Capability/Response.antt =====
-- What an accepted capability response is: the wire form of an answer of its kind or a failure.
use nodima_sdk.Base.{
  String, ◌≤◌, true, ◌≡◌, refl, ◌≢◌, some, none, ok, inl, inr, arith, eq_iff, ◌↔◌, Option-cases,
  sym, subst,
}
use nodima_sdk.Base.Int.{ℤ, pos, negsuc}
use nodima_sdk.Capability.{
  Capability, http, file_read, file_write, scratch, secret, other, CapabilityResponse, HttpResponse,
  FileReadResponse, FileWriteResponse, ScratchResponse, SecretResponse, Failure, validate_response,
  matches_kind, response_results, validate_kind, check_error, check_http_response,
}

-- The response as a tagged union: the result of a kind, or a failure for a kind.
pub data Answer : Type 0 where
  http_answer : HttpResponse → Answer
  file_read_answer : FileReadResponse → Answer
  file_write_answer : FileWriteResponse → Answer
  scratch_answer : ScratchResponse → Answer
  secret_answer : SecretResponse → Answer
  failure : Capability → Failure → Answer

abbrev empty_response : String → Capability → CapabilityResponse
empty_response id kind = record {
  id = id;
  kind = kind;
  http_response = none;
  file_read_response = none;
  file_write_response = none;
  scratch_response = none;
  secret_response = none;
  error = none;
}

-- The wire form: the kind's tag, and the one result or error.
abbrev pub answer_wire : String → Answer → CapabilityResponse
answer_wire id (http_answer h) = record (empty_response id http) { http_response = some h }
answer_wire id (file_read_answer f) = record (empty_response id file_read) {
  file_read_response = some f;
}
answer_wire id (file_write_answer f) = record (empty_response id file_write) {
  file_write_response = some f;
}
answer_wire id (scratch_answer s) = record (empty_response id scratch) { scratch_response = some s }
answer_wire id (secret_answer s) = record (empty_response id secret) { secret_response = some s }
answer_wire id (failure k e) = record (empty_response id k) { error = some e }

-- An HTTP status: 100 to 999.
abbrev IsStatus : ℤ → Type 0
IsStatus (pos n) = (100 ≤ n) × (n ≤ 999)
IsStatus (negsuc n) = ⊥

abbrev IsKnown : Capability → Type 0
IsKnown (other k) = ⊥
IsKnown _ = Unit

-- What each answer requires.
abbrev pub IsSound : Answer → Type 0
IsSound (http_answer h) = IsStatus h.status_code × (h.final_url ≢ "")
IsSound (failure k e) = IsKnown k × (e.code ≢ "") × (e.message ≢ "")
IsSound _ = Unit

IsStatus-checked :
    (h : HttpResponse)
    → check_http_response (some h) ≡ ok tt
    → IsStatus h.status_code × (h.final_url ≢ "")
unfolding check_http_response
IsStatus-checked h e = ground (arith, eq_iff h.final_url "")

http_sound :
    (h : HttpResponse)
    → IsStatus h.status_code × (h.final_url ≢ "")
    → check_http_response (some h) ≡ ok tt
unfolding check_http_response
http_sound h c = ground (arith, eq_iff h.final_url "")

no_http : check_http_response none ≡ ok tt
unfolding check_http_response
no_http = refl

answer_accepted :
    (id : String) (a : Answer) → id ≢ "" → IsSound a → validate_response (answer_wire id a) ≡ ok tt
unfolding validate_response validate_kind check_error
answer_accepted id (http_answer h) n s = ground (arith, eq_iff id "", http_sound h)
answer_accepted id (failure (other k) e) n s = absurd (s.0)
answer_accepted id (failure k e) n s =
    ground (arith, eq_iff id "", eq_iff e.code "", eq_iff e.message "", no_http)
answer_accepted id (file_read_answer a) n s = ground (arith, eq_iff id "", no_http)
answer_accepted id (file_write_answer a) n s = ground (arith, eq_iff id "", no_http)
answer_accepted id (scratch_answer a) n s = ground (arith, eq_iff id "", no_http)
answer_accepted id (secret_answer a) n s = ground (arith, eq_iff id "", no_http)

-- The checks of an accepted response, on the fields that they read.
response_checks :
    (r : CapabilityResponse)
    → validate_response r ≡ ok tt
    → (r.id ≢ "")
      × (validate_kind r.kind ≡ ok tt)
      × (response_results r ≡ 1)
      × (check_error r.error ≡ ok tt)
      × (check_http_response r.http_response ≡ ok tt)
unfolding validate_response
response_checks r h = ground (arith, eq_iff r.id "")

failure_reported :
    (k : Capability) (e : Failure)
    → validate_kind k ≡ ok tt
    → check_error (some e) ≡ ok tt
    → IsSound (failure k e)
unfolding validate_kind check_error
failure_reported (other k) e h c = cc
failure_reported k e h c = ground (arith, eq_iff e.code "", eq_iff e.message "")

-- Without an error, the one result is that of the kind.
answer_form :
    (k : Capability) (r : CapabilityResponse)
    → r.kind ≡ k
    → r.error ≡ none
    → matches_kind k r ≡ true
    → response_results r ≡ 1
    → check_http_response r.http_response ≡ ok tt
    → (a : Answer) × (r ≡ answer_wire r.id a) × IsSound a
answer_form http r e free m one h = elim (Option-cases r.http_response) [
  | inl p ↦ cc (rw p at m)
  | inr (a, p) ↦ (http_answer a, ground arith, IsStatus-checked a (rw p at h))
]
answer_form file_read r e free m one h = elim (Option-cases r.file_read_response) [
  | inl p ↦ cc (rw p at m)
  | inr (a, p) ↦ (file_read_answer a, ground arith, tt)
]
answer_form file_write r e free m one h = elim (Option-cases r.file_write_response) [
  | inl p ↦ cc (rw p at m)
  | inr (a, p) ↦ (file_write_answer a, ground arith, tt)
]
answer_form scratch r e free m one h = elim (Option-cases r.scratch_response) [
  | inl p ↦ cc (rw p at m)
  | inr (a, p) ↦ (scratch_answer a, ground arith, tt)
]
answer_form secret r e free m one h = elim (Option-cases r.secret_response) [
  | inl p ↦ cc (rw p at m)
  | inr (a, p) ↦ (secret_answer a, ground arith, tt)
]
answer_form (other k) r e free m one h = cc

result_matches :
    (r : CapabilityResponse)
    → validate_response r ≡ ok tt
    → r.error ≡ none
    → matches_kind r.kind r ≡ true
unfolding validate_response
result_matches r h e = ground arith

-- A response with an ID, that is the wire form of a sound answer.
abbrev pub IsResponse : CapabilityResponse → Type 0
IsResponse r = (r.id ≢ "") × (a : Answer) × (r ≡ answer_wire r.id a) × IsSound a

-- A response is accepted exactly when its ID is not empty and it is the wire form of an answer:
-- the result of its kind (for HTTP with a status from 100 to 999 and a final URL), or a failure
-- with a code and a message for a known kind.
pub validate_response_iff : (r : CapabilityResponse) → (validate_response r ≡ ok tt) ↔ IsResponse r
validate_response_iff r = (accepted, passed)
  where
    accepted : validate_response r ≡ ok tt → IsResponse r
    accepted h =
        let (named, known, one, sound, status) = response_checks r h in
        elim (Option-cases r.error) [
          | inl free ↦
              let (a, e, s) = answer_form r.kind r refl free (result_matches r h free) one status in
              (named, a, e, s)
          | inr (f, p) ↦ (
            named,
            failure r.kind f,
            ground arith,
            failure_reported r.kind f known (rw p at sound),
          )
        ]

    passed : IsResponse r → validate_response r ≡ ok tt
    passed (named, a, e, s) =
        subst (λ q. validate_response q ≡ ok tt) (sym e) (answer_accepted r.id a named s)
