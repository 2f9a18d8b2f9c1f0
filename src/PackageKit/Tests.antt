-- ===== src/PackageKit/Tests.antt =====
-- packagekit: the loader, run on a small package and a small archive.
use nodima_sdk.Base.{
  String, true, false, List, [], ◌∷◌, ◌++◌, ◌≡◌, refl, ok, err, errorf, str, eof, map, ◌==◌,
  if◌then◌else◌,
}
use nodima_sdk.PackageKit.Archive.Create.{
  Machine, made_parent, created, closed_zip, synced, closed, renamed, removed, take_step,
  write_entry, write_entries, write_archive, finish_archive, check_output, clean_up, afterwards,
  sort_strings, insert, before, archive_directory, archive_package,
}
use nodima_sdk.PackageKit.Archive.Traced.{steps_of}
use mathlib.Core.List.{Permᴰ}
use mathlib.Core.List.Permᴰ
use nodima_sdk.PackageKit.Archive.Order.{archive_directory-deterministic}
use nodima_sdk.PackageKit.Archive.Outcome.{Outcome, archive_directory-outcome}
use nodima_sdk.PackageKit.Documents.{is_eof, check_trailer, lookup}
use nodima_sdk.Base.{codes, contains}
use nodima_sdk.PackageKit.{Json, Root}
use nodima_sdk.PackageKit.Loader.Loaded.{IsLoaded, IsOpened, load_directory-IsLoaded}
use nodima_sdk.PackageKit.Samples.{
  toy, plain_file, disk, loaded_filter, filter-loaded, in_place, toy-maps,
}
use nodima_sdk.PackageKit.{Property}
use nodima_sdk.PackageKit.Archive.{ZipEntry, Disk}
use nodima_sdk.PackageKit.Documents.{
  decode_ui_manifest, check_allowed, check_allowed_values, check_controller, check_controllers,
  check_property, check_properties,
}
use nodima_sdk.PackageKit.Documents.Covered.{Covers, decode_ui_manifest-Covers}
use nodima_sdk.Ui.Samples.{form, form-accepted}

load_directory-IsLoaded_example :
    (root : Root) × IsOpened disk "/p" "/p" root × IsLoaded toy root loaded_filter
load_directory-IsLoaded_example =
    load_directory-IsLoaded toy true true true (λ fs. fs) disk "/p" loaded_filter in_place toy-maps
      filter-loaded

abbrev entry_of : String → ZipEntry
entry_of name = record {
  name = name;
  is_dir = false;
  is_symlink = false;
  uncompressed_size = 2;
  open_entry = ok (record { content = 0xC3 ∷ (0xA9 ∷ []); final = eof });
  close = ok tt;
}

abbrev entries : List ZipEntry
entries =
    entry_of "R.md" ∷ (entry_of "manifest.json" ∷ (entry_of "c/s.json" ∷ (entry_of "a.js" ∷ [])))

abbrev unpacked : Disk
unpacked = record {
  stat = λ p. ok plain_file;
  open_zip = λ p. ok entries;
  make_temp = ok "/p";
  make_parent = λ name. ok tt;
  write_file = λ name content. ok tt;
  written = λ files. disk;
}

-- A machine on which every call succeeds, but where the output exists when it is named so.
abbrev machine : Machine
machine = record {
  context = λ t. ok tt;
  load = λ directory. ok loaded_filter;
  lstat = λ p. if p == "/there.zip" then ok plain_file else err eof;
  is_not_exist = λ e. true;
  temp_name = λ output. ok "/tmp";
  read_file = λ root name. ok (1 ∷ (2 ∷ []));
  perform = λ step t. ok tt;
}

archive_directory-outcome_example :
    Outcome machine
      (λ names. names)
      "/p"
      "/f.zip"
      (archive_directory machine (λ names. names) "/p" "/f.zip" [])
archive_directory-outcome_example = archive_directory-outcome machine (λ names. names) "/p" "/f.zip"

-- The first two names come in the other order.
abbrev exchanged : List String → List String
exchanged (a ∷ b ∷ rest) = b ∷ a ∷ rest
exchanged names = names

exchanged-perm : (names : List String) → Permᴰ names (exchanged names)
exchanged-perm [] = Permᴰ.nil
exchanged-perm (a ∷ []) = Permᴰ.refl (a ∷ [])
exchanged-perm (a ∷ b ∷ rest) = Permᴰ.swap refl refl

archive_directory-deterministic_example :
    archive_directory machine (λ names. names) "/p" "/f.zip" []
    ≡ archive_directory machine exchanged "/p" "/f.zip" []
archive_directory-deterministic_example =
    archive_directory-deterministic machine (λ names. names) exchanged "/p" "/f.zip" []
      exchanged-perm

overwriting_refused :
    archive_directory machine (λ names. names) "/p" "/there.zip" []
    ≡ (err (errorf "runner archive output %q already exists" (str "/there.zip" ∷ [])), [])
unfolding archive_directory check_output
overwriting_refused = refl

archive_written : archive_directory machine (λ names. names) "/p" "/f.zip" [] ≡ (
  ok tt,
  made_parent "/f.zip"
      ∷ (created "/tmp"
          ∷ (steps_of (
                map
                  (λ name. (name, 1 ∷ (2 ∷ [])))
                  ("manifest.json" ∷ ("R.md" ∷ ("a.js" ∷ ("c/s.json" ∷ [])))))
              ++ (closed_zip
                  ∷ (synced ∷ (closed ∷ (renamed "/tmp" "/f.zip" ∷ (removed "/tmp" ∷ []))))))),
)
unfolding archive_directory archive_package check_output take_step write_entry write_entries
    write_archive finish_archive clean_up afterwards sort_strings insert before codes
archive_written = refl

-- A decoder of the form, with a schema of its two properties.
abbrev reader : Json
reader = record toy.json {
  decode_ui = λ bytes. ok (form, []);
  unmarshal_schema = λ bytes. ok (
      ("mode", record { type = "string"; enum = "b" ∷ ("a" ∷ []) })
      ∷ (("names", record { type = "string"; enum = [] }) ∷ []));
}

form-decoded : decode_ui_manifest reader (1 ∷ []) (2 ∷ []) ≡ ok form
unfolding decode_ui_manifest check_trailer is_eof lookup check_allowed check_allowed_values
    check_controller check_controllers check_property check_properties contains
form-decoded = rw form-accepted refl

decode_ui_manifest-Covers_example :
    (schema : List (String × Property)) × (reader.unmarshal_schema (2 ∷ []) ≡ ok schema)
    × Covers schema form
decode_ui_manifest-Covers_example =
    decode_ui_manifest-Covers reader (1 ∷ []) (2 ∷ []) form form-decoded
