-- ===== src/Manifest.antt =====
-- runner/v1/manifest.go: the limits and the capabilities of a package manifest.
pub mod Types
pub mod Patterns
pub mod Digest
pub mod Ports
pub mod Validate
pub mod Paths
pub mod Valid
pub mod Samples
mod Tests
use nodima_sdk.Base.{
  ℕ, suc, ◌+◌, ◌*◌, ◌%◌, ◌^◌, ◌<◌, ◌≡◌, ◌≢◌, ◌↔◌, ◌/◌, ◌-◌, false, String, not, List, [], ◌∷◌, map,
  Check, ok, errorf, str, reject, ◌>>=◌, ◌>>◌, ◌||◌, eqb, contains, All, IsFresh, IsFresh-iff,
  IsDistinct, arith,
}
use nodima_sdk.Capability.{
  Capability, http, file_read, file_write, scratch, secret, other, validate_kind,
}

pub record PackageLimits : Type 0 where
  pub memory_bytes : ℕ
  pub wall_time_millis : ℕ
  pub max_output_bytes : ℕ
  pub max_output_messages : ℕ
  pub stderr_bytes : ℕ

-- `PackageLimits.Validate`
unfoldable pub validate_package_limits : PackageLimits → Check
validate_package_limits l = do
  reject (eqb l.memory_bytes 0 || not (eqb (l.memory_bytes % 65536) 0))
      (errorf "memoryBytes must be a positive multiple of 65536" [])
  reject (eqb l.wall_time_millis 0) (errorf "wallTimeMillis must be positive" [])
  reject (eqb l.max_output_bytes 0) (errorf "maxOutputBytes must be positive" [])
  reject (eqb l.max_output_messages 0) (errorf "maxOutputMessages must be positive" [])

-- The text of a capability.
unfoldable pub kind_text : Capability → String
kind_text http = "http"
kind_text file_read = "file-read"
kind_text file_write = "file-write"
kind_text scratch = "scratch"
kind_text secret = "secret"
kind_text (other k) = k

-- The loop of `validateCapabilities`; `seen` is the map of the texts seen.
unfoldable pub check_capabilities : List String → List Capability → Check
check_capabilities seen [] = ok tt
check_capabilities seen (c ∷ cs) = do
  validate_kind c
  reject (contains seen (kind_text c))
      (errorf "duplicate runner capability %q" (str (kind_text c) ∷ []))
  check_capabilities (kind_text c ∷ seen) cs

-- `validateCapabilities`
unfoldable pub validate_manifest_capabilities : List Capability → Check
validate_manifest_capabilities cs = check_capabilities [] cs

abbrev pub IsKnown : Capability → Type 0
IsKnown (other k) = ⊥
IsKnown _ = Unit

validate_kind_iff : (c : Capability) → (validate_kind c ≡ ok tt) ↔ IsKnown c
unfolding validate_kind
validate_kind_iff http = ground arith
validate_kind_iff file_read = ground arith
validate_kind_iff file_write = ground arith
validate_kind_iff scratch = ground arith
validate_kind_iff secret = ground arith
validate_kind_iff (other k) = ground arith

abbrev pub texts_of : List Capability → List String
texts_of = map kind_text

check_capabilities_iff :
    (seen : List String) (cs : List Capability)
    → (check_capabilities seen cs ≡ ok tt) ↔ (All IsKnown cs × IsFresh seen (texts_of cs))
unfolding check_capabilities
check_capabilities_iff seen [] = ground arith
check_capabilities_iff seen (c ∷ cs) =
    ground (arith, validate_kind_iff c, check_capabilities_iff (kind_text c ∷ seen) cs)

-- The capabilities of a manifest are accepted exactly when each is one of the five that the runner
-- knows, and none stands there twice.
pub validate_manifest_capabilities_iff :
    (cs : List Capability)
    → (validate_manifest_capabilities cs ≡ ok tt) ↔ (All IsKnown cs × IsDistinct (texts_of cs))
unfolding validate_manifest_capabilities
validate_manifest_capabilities_iff cs =
    ground (arith, check_capabilities_iff [] cs, IsFresh-iff (texts_of cs))

-- Limits whose memory is a positive number of pages of 64 KiB, and whose time and output are
-- positive.
pub record IsLimited (l : PackageLimits) : Type 0 where
  pub memory : (pages : ℕ) × (l.memory_bytes ≡ (pages + 1) * 65536)
  pub time : 0 < l.wall_time_millis
  pub output : (0 < l.max_output_bytes) × (0 < l.max_output_messages)

whole_pages : (n : ℕ) → n ≢ 0 → n % 65536 ≡ 0 → (pages : ℕ) × (n ≡ (pages + 1) * 65536)
whole_pages n p e = (n / 65536 - 1, omega arith)

pages_iff :
    (n : ℕ)
    → ((eqb n 0 || not (eqb (n % 65536) 0)) ≡ false) ↔ ((pages : ℕ) × (n ≡ (pages + 1) * 65536))
pages_iff n = (λ h. whole_pages n (ground arith) (ground arith), λ p. counted p.0 p.1)
  where
    counted : (pages : ℕ) → n ≡ (pages + 1) * 65536 → (eqb n 0 || not (eqb (n % 65536) 0)) ≡ false
    counted pages e = ground arith

-- Limits are accepted exactly when the memory is a positive number of pages of 64 KiB, and the wall
-- time, the output bytes and the output messages are positive.
pub validate_package_limits_iff :
    (l : PackageLimits) → (validate_package_limits l ≡ ok tt) ↔ IsLimited l
unfolding validate_package_limits
validate_package_limits_iff l = ground (arith, pages_iff l.memory_bytes)
