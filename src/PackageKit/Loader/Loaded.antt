-- ===== src/PackageKit/Loader/Loaded.antt =====
-- What a package that `LoadDirectory` returns is.
use nodima_sdk.Base.{
  ℕ, ◌≤◌, ◌≡◌, ◌≢◌, ◌⊎◌, refl, subst, inl, inr, String, Bool, true, false, ◌+◌, not, Option, some,
  none, List, [], ◌∷◌, length, All, Occurs, IsDistinct, ◌||◌, ◌&&◌, Result-cases, Error, ok, wrap,
  reject, arith, >>=-eq-ok, >>-eq-ok, wrap-eq-ok, eq_iff, is_empty,
}
use nodima_sdk.PackagePath.{has_prefix}
use nodima_sdk.Manifest.Types.{Manifest, ImplementationKind, FileIntegrity}
use nodima_sdk.Manifest.Validate.{validate_manifest, paths_of}
use nodima_sdk.Manifest.Valid.{IsManifest, IsLoadable, validate_manifest_iff}
use nodima_sdk.Ui.{UiManifest}
use nodima_sdk.PackageKit.{
  FileInfo, Root, FileSystem, Json, Property, Tools, manifest_filename, max_manifest_bytes,
  max_package_bytes, wasm_header,
}
use nodima_sdk.PackageKit.Utf8.{utf8_valid}
use nodima_sdk.PackageKit.Reading.{
  read_regular_file, read_regular_file-bounded, IsRead, read_regular_file-IsRead,
}
use nodima_sdk.PackageKit.Documents.{
  decode_manifest, validate_config_schema, decode_ui_manifest, lookup,
}
use nodima_sdk.PackageKit.Documents.Covered.{Covers, decode_ui_manifest-Covers}
use nodima_sdk.PackageKit.Loader.{
  Package, entry, load_files, check_entrypoint, load_ui, finish_package, load_root, load_directory,
}
use nodima_sdk.PackageKit.Loader.Verified.{
  size_of, IsVerified, load_files-IsVerified, load_files-size,
}

-- A WebAssembly module, or JavaScript that compiles.
abbrev pub IsCode : Tools → Manifest → List ℕ → List ℕ → Type 0
IsCode tools m module_bytes entrypoint =
    ((m.implementation ≡ ImplementationKind.wasm)
      × (module_bytes ≡ entrypoint)
      × (has_prefix wasm_header entrypoint ≡ true))
    ⊎ ((m.implementation ≡ ImplementationKind.javascript)
        × (module_bytes ≡ [])
        × (utf8_valid entrypoint ≡ true)
        × (tools.compile m.entrypoint entrypoint ≡ ok tt))

-- No presentation metadata when the manifest names none; else metadata that covers the schema.
abbrev pub HasUi : Tools → Manifest → List ℕ → Option UiManifest → Type 0
HasUi tools m schema_bytes none = m.ui ≡ ""
HasUi tools m schema_bytes (some ui) =
    (m.ui ≢ "")
    × ((schema : List (String × Property)) × ((tools.json).unmarshal_schema schema_bytes
          ≡ ok schema)
        × Covers schema ui)

-- The manifest is what the whole of its file decodes to, which counts with the other files.
abbrev pub IsDecoded : Tools → Root → Manifest → List (String × List ℕ) → Type 0
IsDecoded tools root m loaded =
    (bytes : List ℕ) × IsRead root manifest_filename bytes
    × (length bytes ≤ max_manifest_bytes)
    × (decode_manifest tools.json bytes ≡ ok m)
    × (length bytes + size_of loaded ≤ max_package_bytes)

-- The root is what a real directory was opened as.
abbrev pub IsOpened : FileSystem → String → String → Root → Type 0
IsOpened fs directory absolute_root root =
    (info : FileInfo) × (fs.abs directory ≡ ok absolute_root)
    × (fs.lstat absolute_root ≡ ok info)
    × (info.is_symlink ≡ false)
    × (info.is_dir ≡ true)
    × (fs.open_root absolute_root ≡ ok root)

pub record IsLoaded (tools : Tools) (root : Root) (p : Package) : Type 0 where
  pub valid : IsManifest p.manifest
  pub decoded : IsDecoded tools root p.manifest p.files
  pub verified : All (IsVerified tools root p.manifest p.files) (p.manifest).files
  pub entrypoint : lookup (p.manifest).entrypoint p.files ≡ some p.entrypoint
  pub config_schema : lookup (p.manifest).config_schema p.files ≡ some p.config_schema
  pub is_code : IsCode tools p.manifest p.module_bytes p.entrypoint
  pub is_document : validate_config_schema tools.json p.config_schema ≡ ok tt
  pub has_ui : HasUi tools p.manifest p.config_schema p.ui
  pub readme : (p.readme ≡ []) ⊎ (utf8_valid p.readme ≡ true)

-- A loop over a map meets each of its entries, and each key once.
pub record Visits (range : List (String × FileIntegrity) → List (String × FileIntegrity))
    : Type 1 where
  pub once :
      (fs : List (String × FileIntegrity))
      → IsDistinct (paths_of fs)
      → IsDistinct (paths_of (range fs))
  pub every :
      (P : String × FileIntegrity → Type 0) (fs : List (String × FileIntegrity))
      → All P (range fs)
      → All P fs

-- The files of a decoded manifest are a map: each key stands there once.
abbrev pub ReadsMaps : Json → Type 0
ReadsMaps json =
    (bytes rest : List ℕ) (m : Manifest)
    → json.decode_manifest bytes ≡ ok (m, rest)
    → IsDistinct (paths_of m.files)

decode_manifest-IsDistinct :
    (json : Json) (bytes : List ℕ) (m : Manifest)
    → ReadsMaps json
    → decode_manifest json bytes ≡ ok m
    → IsDistinct (paths_of m.files)
unfolding decode_manifest
decode_manifest-IsDistinct json bytes m maps h = elim (Result-cases (json.decode_manifest bytes)) [
  | inr (x, p) ↦ cc (rw (p, decode_manifest) at h)
  | inl ((k, rest), p) ↦
      let same : k ≡ m = ground arith in
      subst (λ k. IsDistinct (paths_of k.files)) same (maps bytes rest k p)
]

found :
    (tools : Tools) (root : Root) (m : Manifest) (loaded : List (String × List ℕ)) (path : String)
    (fs : List (String × FileIntegrity))
    → All (IsVerified tools root m loaded) fs
    → Occurs path (paths_of fs)
    → lookup path loaded ≡ some (entry (lookup path loaded))
found tools root m loaded path [] a o = absurd o
found tools root m loaded path (f ∷ fs) ((content, r, e, n, g), a) (inl s) =
    let here : lookup path loaded ≡ some content =
      subst (λ p. lookup p loaded ≡ some content) s e in
    rw here refl
found tools root m loaded path (f ∷ fs) (v, a) (inr o) = found tools root m loaded path fs a o

check_entrypoint-IsCode :
    (tools : Tools) (m : Manifest) (entrypoint module_bytes : List ℕ)
    → IsLoadable m.implementation
    → check_entrypoint tools m entrypoint ≡ ok module_bytes
    → IsCode tools m module_bytes entrypoint
unfolding check_entrypoint
check_entrypoint-IsCode tools m entrypoint module_bytes k h = ground arith

load_ui-HasUi :
    (tools : Tools) (m : Manifest) (bytes schema_bytes : List ℕ) (ui : Option UiManifest)
    → load_ui tools m bytes schema_bytes ≡ ok ui
    → HasUi tools m schema_bytes ui
unfolding load_ui
load_ui-HasUi tools m bytes schema_bytes none h = ground (arith, eq_iff m.ui "")
load_ui-HasUi tools m bytes schema_bytes (some ui) h =
    let (n, d) : (m.ui ≢ "") × (decode_ui_manifest tools.json bytes schema_bytes ≡ ok ui) =
      ground (arith, eq_iff m.ui "") in
    (n, decode_ui_manifest-Covers tools.json bytes schema_bytes ui d)

readme_good :
    (readme : List ℕ) (e : Error)
    → reject (not (is_empty readme) && not (utf8_valid readme)) e ≡ ok tt
    → (readme ≡ []) ⊎ (utf8_valid readme ≡ true)
readme_good readme e h = ground arith

finish_package-IsLoaded :
    (tools : Tools) (absolute_root : String) (root : Root) (m : Manifest)
    (loaded : List (String × List ℕ)) (p : Package)
    → IsManifest m
    → All (IsVerified tools root m loaded) m.files
    → IsDecoded tools root m loaded
    → finish_package tools absolute_root m loaded ≡ ok p
    → (absolute_root ≡ p.root) × IsLoaded tools root p
unfolding finish_package
finish_package-IsLoaded tools absolute_root root m loaded p v a n h =
    let (code, e, h1) =
      >>=-eq-ok (check_entrypoint tools m (entry (lookup m.entrypoint loaded))) _ h in
    let (d, h2) =
      >>-eq-ok (validate_config_schema tools.json (entry (lookup m.config_schema loaded))) _ h1 in
    let (ui, f, h3) =
      >>=-eq-ok
        (load_ui tools m (entry (lookup m.ui loaded)) (entry (lookup m.config_schema loaded))) _
        h2 in
    let readme = entry (lookup m.readme loaded) in
    let (r, h4) = >>-eq-ok (reject (not (is_empty readme) && not (utf8_valid readme)) _) _ h3 in
    let built : Package = record {
      root = absolute_root;
      manifest = m;
      module_bytes = code;
      entrypoint = entry (lookup m.entrypoint loaded);
      config_schema = entry (lookup m.config_schema loaded);
      ui = ui;
      readme = readme;
      files = loaded;
    } in
    let same : built ≡ p = cc h4 in
    subst (λ q. (absolute_root ≡ q.root) × IsLoaded tools root q) same
      (
        refl,
        record {
          valid = v;
          verified = a;
          decoded = n;
          entrypoint = found tools root m loaded m.entrypoint m.files a v.entrypoint.1;
          config_schema = found tools root m loaded m.config_schema m.files a v.config_schema.1;
          is_code =
              check_entrypoint-IsCode tools m (entry (lookup m.entrypoint loaded)) code v.loadable
                e;
          is_document = d;
          has_ui =
              load_ui-HasUi tools m (entry (lookup m.ui loaded))
                (entry (lookup m.config_schema loaded)) ui f;
          readme = readme_good readme _ r;
        },
      )

module _ (tools : Tools) (assets required optional : Bool)
    (range : List (String × FileIntegrity) → List (String × FileIntegrity)) where
  load_root-IsLoaded :
      (absolute_root : String) (root : Root) (p : Package)
      → Visits range
      → ReadsMaps tools.json
      → load_root tools assets required optional range absolute_root root ≡ ok p
      → (absolute_root ≡ p.root) × IsLoaded tools root p
  unfolding load_root
  load_root-IsLoaded absolute_root root p visits maps h =
      let (bytes, e, h1) =
        >>=-eq-ok (wrap _ [] (read_regular_file root manifest_filename max_manifest_bytes)) _ h in
      let (m, f, h2) = >>=-eq-ok (decode_manifest tools.json bytes) _ h1 in
      let (v, h3) = >>-eq-ok (wrap _ [] (validate_manifest assets required optional m)) _ h2 in
      let (loaded, g, h4) =
        >>=-eq-ok (load_files tools root m (range m.files) (length bytes) []) _ h3 in
      let e' = wrap-eq-ok _ [] _ e in
      let read = (read_regular_file-bounded root manifest_filename max_manifest_bytes bytes e').1 in
      let whole = read_regular_file-IsRead root manifest_filename max_manifest_bytes bytes e' in
      let size =
        load_files-size tools root m (range m.files) (length bytes) [] loaded g
          (omega (arith, read)) in
      let distinct = visits.once m.files (decode_manifest-IsDistinct tools.json bytes m maps f) in
      finish_package-IsLoaded tools absolute_root root m loaded p
        ((validate_manifest_iff assets required optional m).0 (wrap-eq-ok _ [] _ v))
        (visits.every (IsVerified tools root m loaded) m.files
          (load_files-IsVerified tools root m (range m.files) (length bytes) [] loaded g distinct))
        (bytes, whole, read, f, omega (arith, size)) h4

  -- Whatever the file system answers, LoadDirectory returns a package only from a directory that is
  -- no symbolic link and that was opened as its root. The manifest is valid, and is what the bytes of
  -- its file decode to. Each file of the manifest was read in whole below the root, at a path that
  -- names a regular file and no symbolic link; it is no longer than its limit and has the declared
  -- SHA-256, and all of them together with the manifest are no longer than the limit of a package. The
  -- entrypoint and the configuration schema are files of it, the entrypoint is a WebAssembly module or
  -- JavaScript that compiles, the schema is one JSON object, the presentation metadata is there when
  -- the manifest names it and covers the schema, and the README is empty or UTF-8. The loops meet the
  -- entries of a map in some order, each once, and the decoded files of a manifest are a map.
  pub load_directory-IsLoaded :
      (fs : FileSystem) (directory : String) (p : Package)
      → Visits range
      → ReadsMaps tools.json
      → load_directory tools assets required optional range fs directory ≡ ok p
      → (root : Root) × IsOpened fs directory p.root root × IsLoaded tools root p
  unfolding load_directory
  load_directory-IsLoaded fs directory p visits maps h =
      let (absolute_root, e, h1) = >>=-eq-ok (wrap _ [] (fs.abs directory)) _ h in
      let (info, f, h2) = >>=-eq-ok (wrap _ [] (fs.lstat absolute_root)) _ h1 in
      let (d, h3) = >>-eq-ok (reject (info.is_symlink || not info.is_dir) _) _ h2 in
      let (root, g, h4) = >>=-eq-ok (wrap _ [] (fs.open_root absolute_root)) _ h3 in
      let (same, l) = load_root-IsLoaded absolute_root root p visits maps h4 in
      (
        root,
        subst (λ r. IsOpened fs directory r root) same
            (
              info,
              wrap-eq-ok _ [] _ e,
              wrap-eq-ok _ [] _ f,
              ground (arith, d),
              ground (arith, d),
              wrap-eq-ok _ [] _ g,
            ),
        l,
      )
