-- ===== src/Manifest/Validate.antt =====
-- runner/v1/manifest.go: `Manifest.Validate`.
use nodima_sdk.Base.{
  String, Bool, true, false, not, ◌&&◌, ltb, List, [], ◌∷◌, map, Check, ok, err, errorf, str, num,
  reject, wrap, ◌>>◌, ◌==◌, if◌then◌else◌, length, is_empty, contains, codes,
}
use nodima_sdk.Session.{abi_version}
use nodima_sdk.PackagePath.{validate_package_path}
use nodima_sdk.Manifest.{validate_package_limits, validate_manifest_capabilities}
use nodima_sdk.Manifest.Types.{
  Manifest, ImplementationKind, ExecutionBehavior, FileIntegrity, implementation_text,
}
use nodima_sdk.Manifest.Patterns.{validate_package_id, validate_semantic_version}
use nodima_sdk.Manifest.Digest.{validate_integrity}
use nodima_sdk.Manifest.Ports.{check_javascript, check_distribution, check_ports}

abbrev pub package_format_version : String
package_format_version = "dbminer.runner.package.v1alpha1"

-- `ValidatePackagePath` on a text.
abbrev pub validate_path : String → Check
validate_path p = validate_package_path (codes p)

-- A loop over a literal map of two labels, in either order.
abbrev pub either_order : Bool → String × String → String × String → List (String × String)
either_order true a b = a ∷ (b ∷ [])
either_order false a b = b ∷ (a ∷ [])

abbrev pub is_loadable : ImplementationKind → Bool
is_loadable ImplementationKind.wasm = true
is_loadable ImplementationKind.javascript = true
is_loadable _ = false

unfoldable pub check_identity : Manifest → Check
check_identity m = do
  reject (not (m.format_version == package_format_version))
      (errorf "unsupported runner package format %q" (str m.format_version ∷ []))
  validate_package_id m.id
  validate_semantic_version m.version
  reject (not (m.abi == abi_version)) (errorf "unsupported runner ABI %q" (str m.abi ∷ []))
  reject (not (is_loadable m.implementation)) (
      errorf "loadable runner package implementation must be %q or %q, got %q"
        (str "wasm" ∷ (str "javascript" ∷ (str (implementation_text m.implementation) ∷ []))))

-- The loop over the optional paths.
unfoldable pub check_assets : List (String × String) → Check
check_assets [] = ok tt
check_assets ((label, p) ∷ rest) =
    let more = check_assets rest in
    if p == "" then more else wrap "invalid %s path: %w" (str label ∷ []) (validate_path p) >> more

unfoldable pub check_paths : Bool → Manifest → Check
check_paths order m = do
  wrap "invalid entrypoint: %w" [] (validate_path m.entrypoint)
  wrap "invalid config schema path: %w" [] (validate_path m.config_schema)
  reject (m.entrypoint == m.config_schema)
      (errorf "entrypoint and config schema must be different files" [])
  if m.icon == "" then ok tt else wrap "invalid icon path: %w" [] (validate_path m.icon)
  check_assets (either_order order ("UI metadata", m.ui) ("README", m.readme))

unfoldable pub check_behavior : ExecutionBehavior → Check
check_behavior (ExecutionBehavior.other b) =
    err (errorf "invalid runner execution behavior %q" (str b ∷ []))
check_behavior _ = ok tt

-- The loop over the checksummed files.
unfoldable pub check_files : List (String × FileIntegrity) → Check
check_files [] = ok tt
check_files ((file_path, integrity) ∷ rest) = do
  reject (file_path == "manifest.json") (errorf "manifest.json cannot checksum itself" [])
  wrap "invalid checksummed file path %q: %w" (str file_path ∷ []) (validate_path file_path)
  wrap "invalid integrity for %q: %w" (str file_path ∷ []) (validate_integrity integrity)
  check_files rest

-- The paths of the files.
abbrev pub paths_of : List (String × FileIntegrity) → List String
paths_of = map (λ f. f.0)

-- The loops over the paths that must have a checksum, where a path that may be empty is skipped.
unfoldable pub check_required : List String → List (String × String) → Check
check_required paths [] = ok tt
check_required paths ((label, p) ∷ rest) = do
  reject (not (contains paths p)) (errorf "%s %q has no checksum" (str label ∷ (str p ∷ [])))
  check_required paths rest

unfoldable pub check_optional : List String → List (String × String) → Check
check_optional paths [] = ok tt
check_optional paths ((label, p) ∷ rest) = do
  reject (not (p == "") && not (contains paths p))
      (errorf "%s %q has no checksum" (str label ∷ (str p ∷ [])))
  check_optional paths rest

unfoldable pub check_checksums : Bool → Bool → Manifest → Check
check_checksums order last_order m = do
  reject (ltb (length m.files) 2)
      (errorf "runner package must checksum its entrypoint and config schema" [])
  reject (ltb 32 (length m.files))
      (errorf "runner package declares %d files, limit is 32" (num (length m.files) ∷ []))
  check_files m.files
  check_required (paths_of m.files)
      (either_order order ("entrypoint", m.entrypoint) ("config schema", m.config_schema))
  reject (not (m.icon == "") && not (contains (paths_of m.files) m.icon))
      (errorf "icon %q has no checksum" (str m.icon ∷ []))
  check_optional (paths_of m.files)
      (either_order last_order ("UI metadata", m.ui) ("README", m.readme))

-- `Manifest.Validate`; the three marks are the orders of its loops over literal maps.
unfoldable pub validate_manifest : Bool → Bool → Bool → Manifest → Check
validate_manifest assets required optional m = do
  check_identity m
  check_paths assets m
  check_behavior m.behavior
  reject (is_empty m.ports) (errorf "runner package requires at least one port" [])
  check_javascript m.implementation m.behavior m.capabilities m.distribution m.ports
  check_distribution m.behavior m.capabilities m.ports m.distribution
  check_ports 0 [] m.ports
  validate_manifest_capabilities m.capabilities
  wrap "invalid package limits: %w" [] (validate_package_limits m.limits)
  check_checksums required optional m
