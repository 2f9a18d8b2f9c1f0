-- ===== src/PackageKit/Loader.antt =====
-- packagekit/loader.go: `LoadDirectory`.
pub mod Verified
pub mod Loaded
use nodima_sdk.Base.{
  ℕ, ◌+◌, ◌-◌, ◌*◌, ◌/◌, ◌%◌, ◌^◌, min, String, Bool, true, false, not, ◌&&◌, ◌||◌, ltb, leb, eqb,
  Option, some, none, List, [], ◌∷◌, length, Check, Result, ok, err, Error, errorf, str, num,
  reject, wrap, ◌>>=◌, ◌>>◌, ◌==◌, if◌then◌else◌, is_empty, codes,
}
use nodima_sdk.PackagePath.{equal, has_prefix}
use nodima_sdk.Manifest.Types.{Manifest, ImplementationKind, FileIntegrity}
use nodima_sdk.Manifest.Validate.{validate_manifest}
use nodima_sdk.Ui.{UiManifest}
use nodima_sdk.PackageKit.{
  Root, FileSystem, Tools, manifest_filename, max_manifest_bytes, max_module_bytes,
  max_javascript_bytes, max_config_schema_bytes, max_ui_bytes, max_readme_bytes, max_asset_bytes,
  max_package_bytes, wasm_header,
}
use nodima_sdk.PackageKit.Utf8.{utf8_valid}
use nodima_sdk.PackageKit.Reading.{read_regular_file}
use nodima_sdk.PackageKit.Documents.{
  decode_manifest, validate_config_schema, decode_ui_manifest, lookup,
}

-- `Package`; the text of the README is its bytes.
pub record Package : Type 0 where
  pub root : String
  pub manifest : Manifest
  pub module_bytes : List ℕ
  pub entrypoint : List ℕ
  pub config_schema : List ℕ
  pub ui : Option UiManifest
  pub readme : List ℕ
  pub files : List (String × List ℕ)

abbrev hex_of : ℕ → ℕ
hex_of n = if ltb n 10 then n + 48 else n + 87

-- `hex.EncodeToString`
unfoldable pub encode_hex : List ℕ → List ℕ
encode_hex [] = []
encode_hex (b ∷ bs) = hex_of (b / 16) ∷ (hex_of (b % 16) ∷ encode_hex bs)

abbrev pub is_javascript : ImplementationKind → Bool
is_javascript ImplementationKind.javascript = true
is_javascript _ = false

abbrev pub is_wasm : ImplementationKind → Bool
is_wasm ImplementationKind.wasm = true
is_wasm _ = false

-- `switch filePath`
unfoldable pub limit_of : Manifest → String → ℕ
limit_of m file_path =
    if file_path == m.entrypoint
    then (if is_javascript m.implementation then max_javascript_bytes else max_module_bytes)
    else if file_path == m.config_schema
    then max_config_schema_bytes
    else if file_path == m.ui
    then max_ui_bytes
    else if file_path == m.readme
    then max_readme_bytes
    else max_asset_bytes

-- `loaded[path]`, nil when there is no such entry.
abbrev pub entry : Option (List ℕ) → List ℕ
entry none = []
entry (some content) = content

module _ (tools : Tools) (root : Root) (m : Manifest) where
  -- The body of the loop over the files: what is read, and the new total.
  unfoldable pub load_file : String → FileIntegrity → ℕ → Result (List ℕ × ℕ)
  load_file file_path integrity total = do
    reject (leb max_package_bytes total)
        (errorf "runner package content exceeds %d-byte limit" (num max_package_bytes ∷ []))
    let limit = min (limit_of m file_path) (max_package_bytes - total)
    content ←
        wrap "read runner package file %q: %w" (str file_path ∷ [])
          (read_regular_file root file_path limit)
    let sum = (total + length content) % 2 ^ 64
    reject (ltb max_package_bytes sum)
        (errorf "runner package content exceeds %d-byte limit" (num max_package_bytes ∷ []))
    reject (not (equal (encode_hex (tools.sha256 content)) (codes integrity.sha256)))
        (errorf "runner package file %q failed SHA-256 verification" (str file_path ∷ []))
    ok (content, sum)

  -- The loop: the map of the files, whose later entries stand before.
  unfoldable pub load_files :
      List (String × FileIntegrity) → ℕ → List (String × List ℕ) → Result (List (String × List ℕ))
  load_files [] total loaded = ok loaded
  load_files ((file_path, integrity) ∷ rest) total loaded = do
    (content, sum) ← load_file file_path integrity total
    load_files rest sum ((file_path, content) ∷ loaded)

module _ (tools : Tools) where
  -- The checks of the entrypoint: the module of a WebAssembly package, nil of a JavaScript package.
  unfoldable pub check_entrypoint : Manifest → List ℕ → Result (List ℕ)
  check_entrypoint m entrypoint =
      if is_wasm m.implementation
      then (do
        reject (not (has_prefix wasm_header entrypoint))
            (errorf "runner package entrypoint is not a WebAssembly 1.0 module" [])
        ok entrypoint)
      else (do
        reject (not (utf8_valid entrypoint))
            (errorf "runner package JavaScript entrypoint must be valid UTF-8" [])
        wrap "compile runner package JavaScript entrypoint: %w" []
            (tools.compile m.entrypoint entrypoint)
        ok [])

  -- `if manifest.UI != ""`
  unfoldable pub load_ui : Manifest → List ℕ → List ℕ → Result (Option UiManifest)
  load_ui m bytes schema =
      if m.ui == ""
      then ok none
      else (do ui ← decode_ui_manifest tools.json bytes schema; ok (some ui))

  -- The checks behind the loop, and the package.
  unfoldable pub finish_package : String → Manifest → List (String × List ℕ) → Result Package
  finish_package absolute_root m loaded = do
    let entrypoint = entry (lookup m.entrypoint loaded)
    module_bytes ← check_entrypoint m entrypoint
    let config_schema = entry (lookup m.config_schema loaded)
    validate_config_schema tools.json config_schema
    ui ← load_ui m (entry (lookup m.ui loaded)) config_schema
    let readme = entry (lookup m.readme loaded)
    reject (not (is_empty readme) && not (utf8_valid readme))
        (errorf "runner package README must be valid UTF-8" [])
    ok (record {
      root = absolute_root;
      manifest = m;
      module_bytes = module_bytes;
      entrypoint = entrypoint;
      config_schema = config_schema;
      ui = ui;
      readme = readme;
      files = loaded;
    })

  -- The root's part of `LoadDirectory`. The manifest is validated and its files are met in some
  -- orders: the three marks, and `range`.
  module _ (assets required optional : Bool)
      (range : List (String × FileIntegrity) → List (String × FileIntegrity)) where
    unfoldable pub load_root : String → Root → Result Package
    load_root absolute_root root = do
      manifest_bytes ←
          wrap "read runner package manifest: %w" []
            (read_regular_file root manifest_filename max_manifest_bytes)
      m ← decode_manifest tools.json manifest_bytes
      wrap "validate runner package manifest: %w" [] (validate_manifest assets required optional m)
      loaded ← load_files tools root m (range m.files) (length manifest_bytes) []
      finish_package absolute_root m loaded

    -- `LoadDirectory`
    unfoldable pub load_directory : FileSystem → String → Result Package
    load_directory fs directory = do
      absolute_root ← wrap "resolve runner package directory: %w" [] (fs.abs directory)
      info ← wrap "inspect runner package directory: %w" [] (fs.lstat absolute_root)
      reject (info.is_symlink || not info.is_dir)
          (errorf "runner package root must be a real directory, not a symlink" [])
      root ← wrap "open runner package root: %w" [] (fs.open_root absolute_root)
      load_root absolute_root root
