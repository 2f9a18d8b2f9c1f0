-- ===== src/PackageKit/Archive/Declared.antt =====
-- An archive that is loaded holds exactly the files that its manifest declares.
use nodima_sdk.Base.{
  ℕ, ◌+◌, ◌≤◌, ◌≡◌, ◌↔◌, String, List, [], ◌∷◌, map, length, All, Occurs, IsDistinct, add_all,
  contains_iff, ok, arith, eq_iff,
}
use nodima_sdk.Manifest.Types.{FileIntegrity}
use nodima_sdk.Manifest.Validate.{paths_of}
use nodima_sdk.PackageKit.{Root, Tools, manifest_filename, max_package_bytes}
use nodima_sdk.Base.Covering.{all_covered}
use nodima_sdk.Manifest.Paths.{length-paths_of}
use nodima_sdk.PackageKit.Loader.{Package}
use nodima_sdk.PackageKit.Loader.Loaded.{IsLoaded, IsOpened}
use nodima_sdk.PackageKit.Archive.{ZipEntry, Disk, check_declared}

abbrev pub names_of : List ZipEntry → List String
names_of = map (λ e. e.name)

-- The sizes that the headers declare.
abbrev pub sizes_of : List ZipEntry → ℕ
sizes_of [] = 0
sizes_of (e ∷ es) = e.uncompressed_size + sizes_of es

-- Distinct names, all of them the manifest's or declared by it, and none missing; and a content that
-- is no longer than the limit.
pub record IsComplete (entries : List ZipEntry) (paths : List String) : Type 0 where
  pub distinct : IsDistinct (names_of entries)
  pub declared : All (λ name. Occurs name (manifest_filename ∷ paths)) (names_of entries)
  pub complete : All (λ path. Occurs path (names_of entries)) (manifest_filename ∷ paths)
  pub size : sizes_of entries ≤ max_package_bytes

check_declared_iff :
    (paths names : List String)
    → (check_declared paths names ≡ ok tt)
      ↔ All (λ name. Occurs name (manifest_filename ∷ paths)) names
unfolding check_declared
check_declared_iff paths [] = ground arith
check_declared_iff paths (name ∷ rest) = ground (
  arith,
  eq_iff name manifest_filename,
  eq_iff manifest_filename name,
  contains_iff paths name,
  check_declared_iff paths rest,
)

All-add_all :
    (P : String → Type 0) (seen xs : List String) → All P (add_all seen xs) → All P seen × All P xs
All-add_all P seen [] a = (a, tt)
All-add_all P seen (x ∷ xs) a = let ((p, b), c) = All-add_all P (x ∷ seen) xs a in (b, (p, c))

length-add_all : (seen xs : List String) → length (add_all seen xs) ≡ length seen + length xs
length-add_all seen [] = omega arith
length-add_all seen (x ∷ xs) = omega (arith, length-add_all (x ∷ seen) xs)

complete :
    (es : List ZipEntry) (fs : List (String × FileIntegrity))
    → IsDistinct (names_of es)
    → sizes_of es ≤ max_package_bytes
    → length (add_all [] (names_of es)) ≡ length fs + 1
    → check_declared (paths_of fs) (add_all [] (names_of es)) ≡ ok tt
    → IsComplete es (paths_of fs)
complete es fs d s n c =
    let names = names_of es in
    let declared =
      (All-add_all (λ name. Occurs name (manifest_filename ∷ paths_of fs)) [] names
        ((check_declared_iff (paths_of fs) (add_all [] names)).0 c)).1 in
    record {
      distinct = d;
      declared = declared;
      complete =
          all_covered names (manifest_filename ∷ paths_of fs) d
            (omega (arith, n, length-add_all [] names, length-paths_of fs)) declared;
      size = s;
    }

-- What a loaded archive is: loaded from a root that was opened at the temporary directory, on the file
-- system that these files were written to.
abbrev pub IsArchived : Disk → Tools → List ZipEntry → Package → Type 0
IsArchived disk tools entries p =
    (directory : String) × (files : List (String × List ℕ)) × (absolute_root : String)
    × (root : Root) × (disk.make_temp ≡ ok directory)
    × IsOpened (disk.written files) directory absolute_root root
    × IsLoaded tools root p
    × IsComplete entries (paths_of (p.manifest).files)
    × (p.root ≡ "")
