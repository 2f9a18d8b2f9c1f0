-- ===== src/PackageKit/Template.antt =====
-- packagekit/builder.go: `loadManifestTemplate`, and how `BuildGo` completes the manifest.
pub mod Entered
pub mod Completes
mod Tests
use nodima_sdk.Base.{
  ℕ, String, Bool, true, false, not, ◌||◌, List, [], ◌∷◌, ◌++◌, Result, ok, err, errorf, str, num,
  int, reject, wrap, ◌>>=◌, ◌>>◌, ◌==◌, if◌then◌else◌, is_empty,
}
use nodima_sdk.Base.Int.{above}
use nodima_sdk.Manifest.Types.{Manifest, FileIntegrity}
use nodima_sdk.Manifest.Validate.{validate_manifest}
use nodima_sdk.PackageKit.{FileInfo, Tools, max_manifest_bytes}
use nodima_sdk.PackageKit.Documents.{decode_manifest}

-- `files[path] = integrity`
unfoldable pub put :
    String → FileIntegrity → List (String × FileIntegrity) → List (String × FileIntegrity)
put path integrity [] = (path, integrity) ∷ []
put path integrity ((p, i) ∷ rest) =
    let more = put path integrity rest in
    if p == path then (path, integrity) ∷ rest else (p, i) ∷ more

-- `if path != "" { files[path] = integrity }`
abbrev pub put_optional :
    String → FileIntegrity → List (String × FileIntegrity) → List (String × FileIntegrity)
put_optional path integrity files = if path == "" then files else put path integrity files

-- `strings.Repeat("0", 64)`
abbrev pub placeholder : FileIntegrity
placeholder = record { sha256 = "0000000000000000000000000000000000000000000000000000000000000000" }

-- The files that a template stands for, all with the placeholder.
unfoldable pub template_files : Manifest → List (String × FileIntegrity)
template_files m = put_optional m.readme placeholder (
    put_optional m.ui placeholder (
      put_optional m.icon placeholder
        (put m.config_schema placeholder (put m.entrypoint placeholder []))))

-- `assetPaths`
abbrev pub append_optional : String → List String → List String
append_optional path paths = if path == "" then paths else paths ++ (path ∷ [])

unfoldable pub asset_paths : Manifest → List String
asset_paths m =
    append_optional m.readme (append_optional m.ui (append_optional m.icon (m.config_schema ∷ [])))

-- `loadManifestTemplate`; `lstat` and `read_file` are `os.Lstat` and `os.ReadFile`.
module _ (tools : Tools) (assets required optional : Bool) (lstat : String → Result FileInfo)
    (read_file : String → Result (List ℕ)) where
  unfoldable pub load_manifest_template : String → Result Manifest
  load_manifest_template template_path = do
    info ← wrap "inspect manifest template: %w" [] (lstat template_path)
    reject (info.is_symlink || not info.is_regular)
        (errorf "manifest template must be a regular file, not a symlink" [])
    reject (above info.size max_manifest_bytes) (
        errorf "manifest template is %d bytes, limit is %d"
          (int info.size ∷ (num max_manifest_bytes ∷ [])))
    bytes ← wrap "read manifest template: %w" [] (read_file template_path)
    m ← wrap "decode manifest template: %w" [] (decode_manifest tools.json bytes)
    reject (not (is_empty m.files))
        (errorf "manifest template files must be omitted; the builder generates checksums" [])
    wrap "validate manifest template: %w" []
        (validate_manifest assets required optional (record m { files = template_files m }))
    ok (record m { files = [] })

-- The loop of `BuildGo` that checksums the built files; `read_built` reads one below the temporary
-- root, and `hex` is `hex.EncodeToString`.
module _ (tools : Tools) (hex : List ℕ → String) (read_built : String → Result (List ℕ)) where
  unfoldable pub checksum :
      List String → List (String × FileIntegrity) → Result (List (String × FileIntegrity))
  checksum [] files = ok files
  checksum (path ∷ rest) files = do
    content ← wrap "read built package file %q: %w" (str path ∷ []) (read_built path)
    checksum rest (put path (record { sha256 = hex (tools.sha256 content) }) files)
