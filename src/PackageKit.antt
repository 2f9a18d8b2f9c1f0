-- ===== src/PackageKit.antt =====
-- packagekit: what it takes of the operating system, of JSON, of SHA-256 and of the JavaScript
-- compiler, as records of functions, and the limits of a package.
--
-- A file system is what its calls answer during one operation; that what `Lstat` says of a file and
-- what is opened afterwards belong together is not assumed.
pub mod Utf8
pub mod Reading
pub mod Documents
pub mod Loader
pub mod Archive
pub mod Template
pub mod Samples
mod Tests
use nodima_sdk.Base.{ℕ, ◌*◌, ◌^◌, String, Bool, Option, List, [], ◌∷◌, Result, Check}
use nodima_sdk.Base.Int.{ℤ}
use nodima_sdk.Wire.{Reader}
use nodima_sdk.Manifest.Types.{Manifest}
use nodima_sdk.Ui.{UiManifest}

-- `os.FileInfo`: the mode's bits that are asked for, and the size.
pub record FileInfo : Type 0 where
  pub is_symlink : Bool
  pub is_dir : Bool
  pub is_regular : Bool
  pub size : ℤ

-- `os.File`
pub record File : Type 0 where
  pub stat : Result FileInfo
  pub content : Reader

-- `os.Root`
pub record Root : Type 0 where
  pub lstat : String → Result FileInfo
  pub open_file : String → Result File

-- `filepath.Abs`, `os.Lstat` and `os.OpenRoot`
pub record FileSystem : Type 0 where
  pub abs : String → Result String
  pub lstat : String → Result FileInfo
  pub open_root : String → Result Root

-- A property of a configuration schema, as far as the loader reads it.
pub record Property : Type 0 where
  pub type : String
  pub enum : List String

-- What a JSON decoder reads, with the bytes that it leaves; `decode_any` says whether the value is an
-- object. `unmarshal_schema` is `json.Unmarshal` of the schema's properties.
pub record Json : Type 0 where
  pub decode_manifest : List ℕ → Result (Manifest × List ℕ)
  pub decode_ui : List ℕ → Result (UiManifest × List ℕ)
  pub decode_any : List ℕ → Result (Bool × List ℕ)
  pub unmarshal_schema : List ℕ → Result (List (String × Property))

-- `sha256.Sum256` and `goja.Compile`
pub record Tools : Type 0 where
  pub json : Json
  pub sha256 : List ℕ → List ℕ
  pub compile : String → List ℕ → Check

abbrev pub manifest_filename : String
manifest_filename = "manifest.json"

abbrev pub max_manifest_bytes : ℕ
max_manifest_bytes = 256 * 2 ^ 10

abbrev pub max_module_bytes : ℕ
max_module_bytes = 64 * 2 ^ 20

abbrev pub max_javascript_bytes : ℕ
max_javascript_bytes = 64 * 2 ^ 10

abbrev pub max_config_schema_bytes : ℕ
max_config_schema_bytes = 2 ^ 20

abbrev pub max_ui_bytes : ℕ
max_ui_bytes = 2 ^ 20

abbrev pub max_readme_bytes : ℕ
max_readme_bytes = 256 * 2 ^ 10

abbrev pub max_asset_bytes : ℕ
max_asset_bytes = 4 * 2 ^ 20

abbrev pub max_package_bytes : ℕ
max_package_bytes = 96 * 2 ^ 20

-- The header of a WebAssembly 1.0 module.
abbrev pub wasm_header : List ℕ
wasm_header = 0 ∷ (0x61 ∷ (0x73 ∷ (0x6d ∷ (1 ∷ (0 ∷ (0 ∷ (0 ∷ [])))))))
