-- ===== src/Capability/Tests.antt =====
-- runner/v1/message.go: validation of capability requests and responses, run on small inputs.
use nodima_sdk.Base.{none, some, [], ◌∷◌, ◌≡◌, ◌↔◌, refl, ok, err, errorf}
use nodima_sdk.Base.Int.{pos}
use nodima_sdk.Capability.{
  HttpRequest, HttpResponse, CapabilityRequest, CapabilityResponse, http, secret, validate_request,
  validate_response, validate_payload, validate_kind, check_error, check_http_response,
}
use nodima_sdk.Capability.Request.{IsRequest, validate_request_iff}
use nodima_sdk.Capability.Response.{IsResponse, validate_response_iff}

abbrev get : HttpRequest
get = record { method = "GET"; url = "https://a.example"; headers = []; body = [] }

abbrev request : CapabilityRequest
request = record {
  id = "cap-1";
  kind = http;
  http_request = some get;
  file_read_request = none;
  file_write_request = none;
  scratch_request = none;
  secret_request = none;
}

abbrev found : HttpResponse
found = record {
  status_code = pos 200;
  headers = [];
  body = 104 ∷ (105 ∷ []);
  final_url = "https://a.example";
}

abbrev response : CapabilityResponse
response = record {
  id = "cap-1";
  kind = http;
  http_response = some found;
  file_read_response = none;
  file_write_response = none;
  scratch_response = none;
  secret_response = none;
  error = none;
}

request-accepted : validate_request request ≡ ok tt
unfolding validate_request validate_payload validate_kind
request-accepted = refl

response-accepted : validate_response response ≡ ok tt
unfolding validate_response validate_kind check_error check_http_response
response-accepted = refl

mislabelled-refused :
    validate_response (record response { kind = secret })
    ≡ err (errorf "capability response result does not match its kind" [])
unfolding validate_response validate_kind check_error check_http_response
mislabelled-refused = refl

validate_request_iff_example : (validate_request request ≡ ok tt) ↔ IsRequest request
validate_request_iff_example = validate_request_iff request

validate_response_iff_example : (validate_response response ≡ ok tt) ↔ IsResponse response
validate_response_iff_example = validate_response_iff response
