-- ===== src/Sdk/Requests.antt =====
-- go/sdk.go: the ID of a capability request, `fmt.Sprintf("cap-%d", n)`, and a request without one.
use Prim.Native.String
use nodima_sdk.Base.{ℕ, zero, suc, ◌/◌, ◌%◌, String, none, ltb, if◌then◌else◌}
use nodima_sdk.Capability.{Capability, CapabilityRequest}

digit : ℕ → String
digit zero = "0"
digit (suc zero) = "1"
digit (suc (suc zero)) = "2"
digit (suc (suc (suc zero))) = "3"
digit (suc (suc (suc (suc zero)))) = "4"
digit (suc (suc (suc (suc (suc zero))))) = "5"
digit (suc (suc (suc (suc (suc (suc zero)))))) = "6"
digit (suc (suc (suc (suc (suc (suc (suc zero))))))) = "7"
digit (suc (suc (suc (suc (suc (suc (suc (suc zero)))))))) = "8"
digit _ = "9"

-- `%d` of a number below 10 ^ fuel.
decimal : ℕ → ℕ → String
decimal zero n = ""
decimal (suc fuel) n =
    let front = decimal fuel (n / 10) in
    if ltb n 10 then digit n else String.◌++◌ front (digit (n % 10))

-- A uint64 has at most twenty digits.
unfoldable pub request_id : ℕ → String
unfolding decimal digit
request_id n = String.◌++◌ "cap-" (decimal 20 n)

abbrev pub empty_request : Capability → CapabilityRequest
empty_request kind = record {
  id = "";
  kind = kind;
  http_request = none;
  file_read_request = none;
  file_write_request = none;
  scratch_request = none;
  secret_request = none;
}
