-- ===== src/PackageKit/Template/Tests.antt =====
-- packagekit/builder.go: the template, run on a small manifest.
use nodima_sdk.PackageKit.Template.{
  put, template_files, asset_paths, load_manifest_template, checksum,
}
use nodima_sdk.Manifest.Validate.{
  check_identity, check_assets, check_paths, check_behavior, check_files, check_required,
  check_optional, check_checksums, validate_manifest,
}
use nodima_sdk.Manifest.Ports.{
  last_port, is_port, validate_javascript, count_inputs, count_required, check_mode,
  check_distribution, check_ports,
}
use nodima_sdk.Manifest.Digest.{hex_digit, decode_hex, validate_integrity}
use nodima_sdk.Manifest.Patterns.{
  package_id_pattern, semantic_version_pattern, port_id_pattern, validate_package_id,
  validate_semantic_version,
}
use nodima_sdk.Manifest.{
  validate_package_limits, kind_text, check_capabilities, validate_manifest_capabilities,
}
use nodima_sdk.PackagePath.{
  equal, has_byte, has_prefix, split, join, climb, keep, keep_all, turn, is_abs, clean,
  validate_package_path,
}
use nodima_sdk.Regex.{nullable, after, match_string}
use nodima_sdk.PackageKit.Documents.{decode_manifest, check_trailer, is_eof}
use nodima_sdk.Capability.{validate_kind}
use nodima_sdk.Base.{codes, contains, ℕ, String, true, [], List, ◌∷◌, ◌≡◌, ok, refl, arith}
use nodima_sdk.Manifest.Types.{Manifest, FileIntegrity}
use nodima_sdk.Manifest.Samples.{filter, digest}
use nodima_sdk.PackageKit.{Tools}
use nodima_sdk.PackageKit.Samples.{toy, plain_file}
use nodima_sdk.PackageKit.Loader.{encode_hex}
use nodima_sdk.PackageKit.Template.Completes.{Hashes, template-completes}

abbrev bare : Manifest
bare = record filter { files = [] }

abbrev template_tools : Tools
template_tools = record toy { json = record toy.json { decode_manifest = λ bytes. ok (bare, []) } }

abbrev hex_text : List ℕ → String
hex_text bytes = "0123456789abcdef0123456789abcdef0123456789abcdef0123456789abcdef"

abbrev completed : List (String × FileIntegrity)
completed = ("a.js", digest) ∷ (("c/s.json", digest) ∷ (("R.md", digest) ∷ []))

toy-Hashes : Hashes template_tools hex_text
unfolding codes encode_hex
toy-Hashes = record {
  sums = λ content. refl;
  bytes = λ content. omega arith;
  digits = λ content. refl;
}

bare-loaded :
    load_manifest_template template_tools true true true (λ p. ok plain_file) (λ p. ok (1 ∷ [])) "t"
    ≡ ok bare
unfolding put template_files asset_paths load_manifest_template checksum check_identity check_assets
    check_paths check_behavior check_files check_required check_optional check_checksums
    validate_manifest last_port is_port validate_javascript count_inputs count_required check_mode
    check_distribution check_ports hex_digit decode_hex validate_integrity package_id_pattern
    semantic_version_pattern port_id_pattern validate_package_id validate_semantic_version
    validate_package_limits kind_text check_capabilities validate_manifest_capabilities equal
    has_byte has_prefix split join climb keep keep_all turn is_abs clean validate_package_path
    nullable after match_string decode_manifest check_trailer is_eof validate_kind codes contains
bare-loaded = refl

bare-checksums :
    checksum template_tools hex_text (λ p. ok (2 ∷ [])) (bare.entrypoint ∷ asset_paths bare) []
    ≡ ok completed
unfolding checksum asset_paths put
bare-checksums = refl

template-completes_example :
    validate_manifest true true true (record bare { files = completed }) ≡ ok tt
template-completes_example =
    template-completes template_tools true true true (λ p. ok plain_file) (λ p. ok (1 ∷ []))
      hex_text (λ p. ok (2 ∷ [])) "t" bare completed toy-Hashes bare-loaded bare-checksums
