-- ===== src/PackageKit/Archive/Create.antt =====
-- packagekit/archive.go: `ArchiveDirectory`.
--
-- What it changes is a trace: the steps that succeeded and the cleanups that were called, in order.
-- What a step or a poll of the context answers may depend on the trace before it.
use nodima_sdk.Base.{
  ℕ, ◌*◌, String, Bool, true, false, List, [], ◌∷◌, ◌++◌, Result, Check, ok, err, Error, errorf,
  str, if◌then◌else◌, ltb, codes,
}
use nodima_sdk.Base.Action.{Action, lift, ◌>>=◌, ◌>>◌}
use nodima_sdk.Manifest.Validate.{paths_of}
use nodima_sdk.PackageKit.{FileInfo, manifest_filename}
use nodima_sdk.PackageKit.Loader.{Package}

-- `zip.FileHeader` as the loop fills it: the modification time is in seconds since 1970.
pub record FileHeader : Type 0 where
  pub name : String
  pub method : ℕ
  pub modified : ℕ
  pub mode : ℕ

-- `zip.Store`, the start of the year 2000 in UTC, and the mode 0o600.
abbrev pub file_header : String → FileHeader
file_header name = record { name = name; method = 0; modified = 946684800; mode = 6 * 64 }

-- `os.MkdirAll` of the output's directory, `os.CreateTemp`, the calls of the ZIP writer and of the
-- file, `os.Rename` and `os.Remove`.
pub data Step : Type 0 where
  made_parent created : String → Step
  header : FileHeader → Step
  content : List ℕ → Step
  closed_zip synced closed : Step
  renamed : String → String → Step
  removed : String → Step

pub record Machine : Type 0 where
  pub context : List Step → Check
  pub load : String → Result Package
  pub lstat : String → Result FileInfo
  pub is_not_exist : Error → Bool
  pub temp_name : String → Result String
  pub read_file : String → String → Result (List ℕ)
  pub perform : Step → List Step → Check

-- The bytewise order of texts, which is the order of their code points.
unfoldable pub before : List ℕ → List ℕ → Bool
before [] bs = true
before (a ∷ as') [] = false
before (a ∷ as') (b ∷ bs) =
    let rest = before as' bs in if ltb a b then true else if ltb b a then false else rest

unfoldable pub insert : String → List String → List String
insert name [] = name ∷ []
insert name (x ∷ xs) =
    let rest = insert name xs in if before (codes name) (codes x) then name ∷ x ∷ xs else x ∷ rest

-- `sort.Strings`
unfoldable pub sort_strings : List String → List String
sort_strings [] = []
sort_strings (x ∷ xs) = insert x (sort_strings xs)

-- The manifest, and the files' names in order.
abbrev pub archive_names : List String → List String
archive_names names = manifest_filename ∷ sort_strings names

-- What the branches of an error do before they return it.
unfoldable pub clean_up : List Step → Check × List Step → Check × List Step
clean_up steps (ok _, t) = (ok tt, t)
clean_up steps (err e, t) = (err e, t ++ steps)

abbrev pub on_failure : List Step → Action (List Step) Unit → Action (List Step) Unit
on_failure steps m t = clean_up steps (m t)

-- A deferred call.
unfoldable pub afterwards : Step → Action (List Step) Unit → Action (List Step) Unit
afterwards step m t = let (r, t') = m t in (r, t' ++ (step ∷ []))

module _ (machine : Machine) where
  unfoldable pub take_step : Step → Action (List Step) Unit
  take_step step t = elim (machine.perform step t) [
    | ok _ ↦ (ok tt, t ++ (step ∷ []))
    | err e ↦ (err e, t)
  ]

  -- The body of the loop over the names.
  unfoldable pub write_entry : String → String → Action (List Step) Unit
  write_entry root name = do
    λ t. (machine.context t, t)
    data' ← lift (machine.read_file root name)
    take_step (header (file_header name))
    take_step (content data')

  unfoldable pub write_entries : String → List String → Action (List Step) Unit
  write_entries root [] = lift (ok tt)
  write_entries root (name ∷ names) = do write_entry root name; write_entries root names

  -- What stands behind the loop.
  unfoldable pub finish_archive : String → String → Action (List Step) Unit
  finish_archive output temporary = do
    on_failure (closed ∷ []) (take_step closed_zip)
    on_failure (closed ∷ []) (take_step synced)
    take_step closed
    take_step (renamed temporary output)

  -- What stands behind the temporary file's creation.
  unfoldable pub write_archive : String → String → String → List String → Action (List Step) Unit
  write_archive output temporary root names = do
    on_failure (closed_zip ∷ closed ∷ []) (write_entries root names)
    finish_archive output temporary

  -- The output must not exist.
  unfoldable pub check_output : String → Check
  check_output output = elim (machine.lstat output) [
    | ok info ↦ err (errorf "runner archive output %q already exists" (str output ∷ []))
    | err e ↦ if machine.is_not_exist e then ok tt else err e
  ]

  -- What stands behind the checks; the names are in the order in which the loop meets them.
  unfoldable pub archive_package : String → String → List String → Action (List Step) Unit
  archive_package output root names = do
    take_step (made_parent output)
    temporary ← lift (machine.temp_name output)
    λ t. (ok tt, t ++ (created temporary ∷ []))
    afterwards (removed temporary) (write_archive output temporary root (archive_names names))

  -- `ArchiveDirectory`; `range` is the order in which the loop meets the names.
  unfoldable pub archive_directory :
      (List String → List String) → String → String → Action (List Step) Unit
  archive_directory range directory output = do
    λ t. (machine.context t, t)
    p ← lift (machine.load directory)
    lift (check_output output)
    archive_package output p.root (range (paths_of (p.manifest).files))
