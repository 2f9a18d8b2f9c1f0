-- ===== src/PackageKit/Samples.antt =====
-- A small package on a small disk, for the tests.
use nodima_sdk.Base.{
  ℕ, true, false, none, List, [], ◌∷◌, ◌++◌, ◌≡◌, if◌then◌else◌, refl, ok, err, eof, is_empty,
  IsDistinct, IsFresh-iff, subst,
}
use nodima_sdk.Base.Int.{pos}
use nodima_sdk.PackageKit.Loader.{
  encode_hex, limit_of, load_file, load_files, check_entrypoint, load_ui, finish_package, load_root,
  load_directory,
}
use nodima_sdk.PackageKit.Documents.{
  is_eof, check_trailer, lookup, decode_manifest, validate_config_schema,
}
use nodima_sdk.PackageKit.Reading.{read_all, read_regular_file}
use nodima_sdk.PackageKit.Utf8.{utf8_valid}
use nodima_sdk.Manifest.Validate.{
  check_identity, check_assets, check_paths, check_behavior, check_files, check_required,
  check_optional, check_checksums, validate_manifest,
}
use nodima_sdk.Manifest.Ports.{
  last_port, is_port, validate_javascript, count_inputs, count_required, check_mode,
  check_distribution, check_ports,
}
use nodima_sdk.Manifest.Digest.{hex_digit, decode_hex, validate_integrity}
use nodima_sdk.Manifest.Patterns.{
  package_id_pattern, semantic_version_pattern, port_id_pattern, validate_package_id,
  validate_semantic_version,
}
use nodima_sdk.Manifest.{
  validate_package_limits, kind_text, check_capabilities, validate_manifest_capabilities,
}
use nodima_sdk.PackagePath.{
  equal, has_byte, has_prefix, split, join, climb, keep, keep_all, turn, is_abs, clean,
  validate_package_path,
}
use nodima_sdk.Regex.{nullable, after, match_string}
use nodima_sdk.Capability.{validate_kind}
use nodima_sdk.Base.{codes, contains}
use nodima_sdk.Manifest.Samples.{filter}
use nodima_sdk.Manifest.Validate.{paths_of}
use nodima_sdk.PackageKit.{FileInfo, FileSystem, Tools}
use nodima_sdk.PackageKit.Loader.{Package}
use nodima_sdk.PackageKit.Loader.Loaded.{Visits, ReadsMaps}

-- The bytes whose digits are 0123456789abcdef, four times.
abbrev pub eight_bytes : List ℕ
eight_bytes = 0x01 ∷ (0x23 ∷ (0x45 ∷ (0x67 ∷ (0x89 ∷ (0xAB ∷ (0xCD ∷ (0xEF ∷ [])))))))

-- A decoder of one manifest and of objects, a hash of one value, and a compiler that takes all.
abbrev pub toy : Tools
toy = record {
  json = record {
    decode_manifest = λ bytes. ok (filter, []);
    decode_ui = λ bytes. err eof;
    decode_any = λ bytes. if is_empty bytes then err eof else ok (true, []);
    unmarshal_schema = λ bytes. ok [];
  };
  sha256 = λ bytes. eight_bytes ++ (eight_bytes ++ (eight_bytes ++ eight_bytes));
  compile = λ name bytes. ok tt;
}

abbrev pub plain_file : FileInfo
plain_file = record { is_symlink = false; is_dir = false; is_regular = true; size = pos 2 }

-- Every file is a plain one, and holds the two characters `é`.
abbrev pub disk : FileSystem
disk = record {
  abs = λ p. ok p;
  lstat = λ p. ok (record plain_file { is_dir = true });
  open_root = λ p. ok (record {
    lstat = λ q. ok plain_file;
    open_file = λ q. ok (record {
      stat = ok plain_file;
      content = record { content = 0xC3 ∷ (0xA9 ∷ []); final = eof };
    });
  });
}

abbrev pub loaded_filter : Package
loaded_filter = record {
  root = "/p";
  manifest = filter;
  module_bytes = [];
  entrypoint = 0xC3 ∷ (0xA9 ∷ []);
  config_schema = 0xC3 ∷ (0xA9 ∷ []);
  ui = none;
  readme = 0xC3 ∷ (0xA9 ∷ []);
  files =
      ("c/s.json", 0xC3 ∷ (0xA9 ∷ []))
      ∷ (("a.js", 0xC3 ∷ (0xA9 ∷ [])) ∷ (("R.md", 0xC3 ∷ (0xA9 ∷ [])) ∷ []));
}

pub filter-loaded : load_directory toy true true true (λ fs. fs) disk "/p" ≡ ok loaded_filter
unfolding encode_hex limit_of load_file load_files check_entrypoint load_ui finish_package load_root
    load_directory is_eof check_trailer lookup decode_manifest validate_config_schema read_all
    read_regular_file utf8_valid check_identity check_assets check_paths check_behavior check_files
    check_required check_optional check_checksums validate_manifest last_port is_port
    validate_javascript count_inputs count_required check_mode check_distribution check_ports
    hex_digit decode_hex validate_integrity package_id_pattern semantic_version_pattern
    port_id_pattern validate_package_id validate_semantic_version validate_package_limits kind_text
    check_capabilities validate_manifest_capabilities equal has_byte has_prefix split join climb
    keep keep_all turn is_abs clean validate_package_path nullable after match_string validate_kind
    codes contains
filter-loaded = refl

pub in_place : Visits (λ fs. fs)
in_place = record { once = λ fs d. d; every = λ P fs a. a }

filter-IsDistinct : IsDistinct (paths_of filter.files)
unfolding contains
filter-IsDistinct = (IsFresh-iff (paths_of filter.files)).0 (refl, (refl, (refl, tt)))

pub toy-maps : ReadsMaps toy.json
toy-maps bytes rest m e =
    let same : filter ≡ m = cc e in
    subst (λ m. IsDistinct (paths_of m.files)) same filter-IsDistinct
