-- ===== src/PackageKit/Archive.antt =====
-- packagekit/archive.go: `LoadArchive`.
pub mod Declared
pub mod Create
pub mod Traced
pub mod Outcome
pub mod Order
use nodima_sdk.Base.{
  ℕ, ◌+◌, ◌-◌, ◌%◌, ◌^◌, ◌*◌, String, Bool, true, false, not, ◌&&◌, ◌||◌, ltb, eqb, List, [], ◌∷◌,
  length, Check, Result, ok, err, Error, errorf, str, num, reject, wrap, ◌>>=◌, ◌>>◌, ◌==◌,
  if◌then◌else◌, contains,
}
use nodima_sdk.Base.Int.{above}
use nodima_sdk.Wire.{Reader}
use nodima_sdk.Manifest.Types.{Manifest, FileIntegrity}
use nodima_sdk.Manifest.Validate.{validate_path, paths_of}
use nodima_sdk.PackageKit.{FileInfo, FileSystem, Tools, manifest_filename, max_package_bytes}
use nodima_sdk.PackageKit.Reading.{read_all}
use nodima_sdk.PackageKit.Loader.{Package, load_directory}

-- `zip.File`: its header, what opens it, and what closing it returns.
pub record ZipEntry : Type 0 where
  pub name : String
  pub is_dir : Bool
  pub is_symlink : Bool
  pub uncompressed_size : ℕ
  pub open_entry : Result Reader
  pub close : Check

-- `os.Stat` and `zip.OpenReader` of the archive, `os.MkdirTemp`, what `os.MkdirAll` and `os.WriteFile`
-- return for an entry's name below the temporary root, and the file system after files were written
-- there.
pub record Disk : Type 0 where
  pub stat : String → Result FileInfo
  pub open_zip : String → Result (List ZipEntry)
  pub make_temp : Result String
  pub make_parent : String → Check
  pub write_file : String → List ℕ → Check
  pub written : List (String × List ℕ) → FileSystem

-- `entry.Open`, `io.ReadAll` and `reader.Close`, and the comparison with the header's size.
unfoldable pub read_entry : ZipEntry → Result (List ℕ)
read_entry e = do
  reader ← e.open_entry
  content ← read_all (e.uncompressed_size + 1) reader
  e.close
  reject (not (eqb (length content) e.uncompressed_size))
      (errorf "runner archive entry %q changed size while reading" (str e.name ∷ []))
  ok content

-- The checks of an entry's header.
unfoldable pub check_entry : List String → ℕ → ZipEntry → Check
check_entry seen total e = do
  if e.name == manifest_filename
      then ok tt
      else wrap "invalid runner archive entry %q: %w" (str e.name ∷ []) (validate_path e.name)
  reject (e.is_dir || e.is_symlink)
      (errorf "runner archive entry %q must be a regular file" (str e.name ∷ []))
  reject (contains seen e.name) (errorf "runner archive repeats entry %q" (str e.name ∷ []))
  reject (ltb ((max_package_bytes + 2 ^ 64 - total) % 2 ^ 64) e.uncompressed_size)
      (errorf "runner archive content exceeds %d-byte limit" (num max_package_bytes ∷ []))

module _ (disk : Disk) where
  -- The loop over the entries; `seen` is the map of the names, and the files written so far are in
  -- reverse.
  unfoldable pub extract :
      List String
      → ℕ
      → List (String × List ℕ)
      → List ZipEntry
      → Result (List String × List (String × List ℕ))
  extract seen total files [] = ok (seen, files)
  extract seen total files (e ∷ es) = do
    check_entry seen total e
    content ← read_entry e
    disk.make_parent e.name
    disk.write_file e.name content
    extract (e.name ∷ seen) ((total + e.uncompressed_size) % 2 ^ 64) ((e.name, content) ∷ files) es

-- The loop over the names that were seen.
unfoldable pub check_declared : List String → List String → Check
check_declared paths [] = ok tt
check_declared paths (name ∷ rest) = do
  reject (not (name == manifest_filename) && not (contains paths name))
      (errorf "runner archive file %q is not declared by the manifest" (str name ∷ []))
  check_declared paths rest

-- The checks of the package against the entries.
unfoldable pub check_contents : List String → Package → Result Package
check_contents seen p = do
  reject (not (eqb (length seen) (length (p.manifest).files + 1)))
      (errorf "runner archive contains undeclared files" [])
  check_declared (paths_of (p.manifest).files) seen
  ok (record p { root = "" })

module _ (tools : Tools) (assets required optional : Bool)
    (range : List (String × FileIntegrity) → List (String × FileIntegrity)) (disk : Disk) where
  -- `LoadArchive`
  unfoldable pub load_archive : String → Result Package
  load_archive archive_path = do
    info ← disk.stat archive_path
    reject (not info.is_regular || above info.size max_package_bytes)
        (errorf "runner archive exceeds %d-byte limit" (num max_package_bytes ∷ []))
    entries ← wrap "open runner archive: %w" [] (disk.open_zip archive_path)
    reject (ltb (length entries) 3 || ltb 33 (length entries))
        (errorf "runner archive has an invalid entry count" [])
    root ← disk.make_temp
    (seen, files) ← extract disk [] 0 [] entries
    p ← load_directory tools assets required optional range (disk.written files) root
    check_contents seen p
