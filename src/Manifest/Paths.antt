-- ===== src/Manifest/Paths.antt =====
-- Which paths and files a manifest may name.
use nodima_sdk.Base.{
  ◌≤◌, String, Bool, true, false, List, [], ◌∷◌, ◌≡◌, ◌≢◌, ◌↔◌, ◌⊎◌, ok, length, All, Occurs,
  contains_iff, codes, arith, eq_iff, ◌==◌, wrap, reject, Error, if◌then◌else◌, chain_iff, wrap_iff,
  ap, suc, refl,
}
use nodima_sdk.PackagePath.Valid.{IsPackagePath, validate_package_path_iff}
use nodima_sdk.Manifest.Types.{Manifest, FileIntegrity}
use nodima_sdk.Manifest.Digest.{IsDigest, validate_integrity_iff}
use nodima_sdk.Manifest.Validate.{
  check_assets, check_paths, check_files, paths_of, check_required, check_optional, check_checksums,
  either_order, validate_path,
}

abbrev pub IsPath : String → Type 0
IsPath p = IsPackagePath (codes p)

-- A path of the package, that is not the manifest's, with the digest of its content.
abbrev pub IsFile : String × FileIntegrity → Type 0
IsFile f = (f.0 ≢ "manifest.json") × IsPath f.0 × IsDigest f.1

-- An optional path is empty, or a path of the package with a checksum.
abbrev pub IsAsset : Manifest → String → Type 0
IsAsset m p = (p ≡ "") ⊎ (IsPath p × Occurs p (paths_of m.files))

abbrev pub IsOptional : String → Type 0
IsOptional p = (p ≡ "") ⊎ IsPath p

check_assets_iff :
    (rest : List (String × String)) → (check_assets rest ≡ ok tt) ↔ All (λ a. IsOptional a.1) rest
unfolding check_assets
check_assets_iff [] = ground arith
check_assets_iff ((label, p) ∷ rest) =
    ground (arith, eq_iff p "", validate_package_path_iff (codes p), check_assets_iff rest)

either_iff :
    (P : String → Type 0) (order : Bool) (l k p q : String)
    → All (λ a. P a.1) (either_order order (l, p) (k, q)) ↔ (P p × P q)
either_iff P true l k p q = (λ (a, (b, u)). (a, b), λ (a, b). (a, (b, tt)))
either_iff P false l k p q = (λ (b, (a, u)). (a, b), λ (a, b). (b, (a, tt)))

apart_iff : (a b : String) (e : Error) → (reject (a == b) e ≡ ok tt) ↔ (a ≢ b)
apart_iff a b e = ground (arith, eq_iff a b)

icon_iff :
    (p : String)
    → ((if p == "" then ok tt else wrap "invalid icon path: %w" [] (validate_path p)) ≡ ok tt)
      ↔ IsOptional p
icon_iff p = ground (arith, eq_iff p "", validate_package_path_iff (codes p))

both_assets_iff :
    (order : Bool) (m : Manifest)
    → (check_assets (either_order order ("UI metadata", m.ui) ("README", m.readme)) ≡ ok tt)
      ↔ (IsOptional m.ui × IsOptional m.readme)
both_assets_iff order m = ground (
  arith,
  either_iff IsOptional order _ _ m.ui m.readme,
  check_assets_iff (either_order order ("UI metadata", m.ui) ("README", m.readme)),
)

pub check_paths_iff :
    (order : Bool) (m : Manifest)
    → (check_paths order m ≡ ok tt) ↔ (
        IsPath m.entrypoint
        × (IsPath m.config_schema
            × ((m.entrypoint ≢ m.config_schema)
                × (IsOptional m.icon × (IsOptional m.ui × IsOptional m.readme)))))
unfolding check_paths
check_paths_iff order m =
    chain_iff (wrap_iff _ _ (validate_package_path_iff (codes m.entrypoint))) (
      chain_iff (wrap_iff _ _ (validate_package_path_iff (codes m.config_schema))) (
        chain_iff (apart_iff m.entrypoint m.config_schema _)
          (chain_iff (icon_iff m.icon) (both_assets_iff order m))))

check_files_iff :
    (files : List (String × FileIntegrity)) → (check_files files ≡ ok tt) ↔ All IsFile files
unfolding check_files
check_files_iff [] = ground arith
check_files_iff ((p, i) ∷ rest) = ground (
  arith,
  eq_iff p "manifest.json",
  validate_package_path_iff (codes p),
  validate_integrity_iff i,
  check_files_iff rest,
)

check_required_iff :
    (paths : List String) (rest : List (String × String))
    → (check_required paths rest ≡ ok tt) ↔ All (λ a. Occurs a.1 paths) rest
unfolding check_required
check_required_iff paths [] = ground arith
check_required_iff paths ((label, p) ∷ rest) =
    ground (arith, contains_iff paths p, check_required_iff paths rest)

check_optional_iff :
    (paths : List String) (rest : List (String × String))
    → (check_optional paths rest ≡ ok tt) ↔ All (λ a. (a.1 ≡ "") ⊎ Occurs a.1 paths) rest
unfolding check_optional
check_optional_iff paths [] = ground arith
check_optional_iff paths ((label, p) ∷ rest) =
    ground (arith, eq_iff p "", contains_iff paths p, check_optional_iff paths rest)

pub check_checksums_iff :
    (required optional : Bool) (m : Manifest)
    → (check_checksums required optional m ≡ ok tt) ↔ (
        (2 ≤ length m.files)
        × ((length m.files ≤ 32)
            × (All IsFile m.files
                × (Occurs m.entrypoint (paths_of m.files)
                    × Occurs m.config_schema (paths_of m.files)
                    × ((m.icon ≡ "") ⊎ Occurs m.icon (paths_of m.files))
                    × ((m.ui ≡ "") ⊎ Occurs m.ui (paths_of m.files))
                    × ((m.readme ≡ "") ⊎ Occurs m.readme (paths_of m.files))))))
unfolding check_checksums
check_checksums_iff required optional m = chain_iff (ground arith) (
    chain_iff (ground arith) (
      chain_iff (check_files_iff m.files) (
        ground (
          arith,
          eq_iff m.icon "",
          contains_iff (paths_of m.files) m.icon,
          either_iff (λ p. Occurs p (paths_of m.files)) required m.entrypoint m.config_schema,
          either_iff (λ p. (p ≡ "") ⊎ Occurs p (paths_of m.files)) optional m.ui m.readme,
          check_required_iff (paths_of m.files) (
              either_order required ("entrypoint", m.entrypoint)
                ("config schema", m.config_schema)),
          check_optional_iff (paths_of m.files)
              (either_order optional ("UI metadata", m.ui) ("README", m.readme)),
        ))))

pub length-paths_of : (fs : List (String × FileIntegrity)) → length (paths_of fs) ≡ length fs
length-paths_of [] = refl
length-paths_of (f ∷ fs) = ap suc (length-paths_of fs)
