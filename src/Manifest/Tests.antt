-- ===== src/Manifest/Tests.antt =====
-- runner/v1/manifest.go: the checks of limits and capabilities, run on small inputs.
use nodima_sdk.Base.{[], ◌∷◌, ◌≡◌, ◌↔◌, refl, ok, All, IsDistinct, true, false, codes, contains}
use nodima_sdk.Manifest.Ports.{
  check_distribution, check_mode, check_ports, count_inputs, count_required, is_port, last_port,
  validate_javascript,
}
use nodima_sdk.Manifest.Digest.{decode_hex, hex_digit, validate_integrity}
use nodima_sdk.PackagePath.{
  validate_package_path, has_byte, is_abs, equal, clean, turn, climb, has_prefix, join, keep,
  keep_all, split,
}
use nodima_sdk.Manifest.Samples.{two_pages, filter}
use nodima_sdk.Regex.{match_string, nullable, after}
use nodima_sdk.Manifest.Patterns.{
  package_id_pattern, validate_package_id, validate_semantic_version, semantic_version_pattern,
  port_id_pattern,
}
use nodima_sdk.Manifest.Validate.{
  validate_manifest, check_identity, check_paths, check_assets, check_behavior, check_checksums,
  check_files, check_optional, check_required,
}
use nodima_sdk.Manifest.Valid.{IsManifest, validate_manifest_iff}
use nodima_sdk.Capability.{http, secret, validate_kind}
use nodima_sdk.Manifest.{
  validate_package_limits, IsLimited, validate_package_limits_iff, IsKnown, texts_of,
  validate_manifest_capabilities, validate_manifest_capabilities_iff, check_capabilities, kind_text,
}

validate_manifest_capabilities_iff_example :
    (validate_manifest_capabilities (http ∷ (secret ∷ [])) ≡ ok tt)
    ↔ (All IsKnown (http ∷ (secret ∷ [])) × IsDistinct (texts_of (http ∷ (secret ∷ []))))
validate_manifest_capabilities_iff_example =
    validate_manifest_capabilities_iff (http ∷ (secret ∷ []))

validate_package_limits_iff_example :
    (validate_package_limits two_pages ≡ ok tt) ↔ IsLimited two_pages
validate_package_limits_iff_example = validate_package_limits_iff two_pages

filter-accepted : validate_manifest true false true filter ≡ ok tt
unfolding validate_manifest check_identity check_paths check_assets check_behavior check_checksums
    check_files check_optional check_required validate_package_id package_id_pattern
    validate_semantic_version semantic_version_pattern port_id_pattern match_string nullable after
    codes contains validate_package_path has_byte is_abs equal clean turn climb has_prefix join keep
    keep_all split validate_kind decode_hex hex_digit validate_integrity check_distribution
    check_mode check_ports count_inputs count_required is_port last_port validate_javascript
    check_capabilities kind_text validate_manifest_capabilities validate_package_limits
filter-accepted = refl

validate_manifest_iff_example :
    (validate_manifest true false true filter ≡ ok tt) ↔ IsManifest filter
validate_manifest_iff_example = validate_manifest_iff true false true filter
