-- ===== src/PackageKit/Template/Entered.antt =====
-- The paths under which a template and the builder enter files.
use nodima_sdk.Base.{
  ℕ, ◌≡◌, inl, inr, refl, sym, ap, ◌∙◌, String, List, [], ◌∷◌, ◌++◌, Result, ok, wrap, ◌==◌,
  Bool-cases, >>=-eq-ok, if◌then◌else◌,
}
use nodima_sdk.Manifest.Types.{Manifest, FileIntegrity}
use nodima_sdk.Manifest.Validate.{paths_of}
use nodima_sdk.PackageKit.{Tools}
use nodima_sdk.PackageKit.Template.{
  put, put_optional, append_optional, placeholder, template_files, asset_paths, checksum,
}

-- The paths after a file is entered.
abbrev pub enter : String → List String → List String
enter path [] = path ∷ []
enter path (p ∷ ps) = let more = enter path ps in if p == path then path ∷ ps else p ∷ more

abbrev pub enter_all : List String → List String → List String
enter_all [] paths = paths
enter_all (p ∷ ps) paths = enter_all ps (enter p paths)

paths_of-put :
    (path : String) (i : FileIntegrity) (fs : List (String × FileIntegrity))
    → paths_of (put path i fs) ≡ enter path (paths_of fs)
unfolding put
paths_of-put path i [] = refl
paths_of-put path i ((p, j) ∷ fs) = elim (Bool-cases (p == path)) [
  | inl e ↦ rw e refl
  | inr e ↦ rw e (ap (λ l. p ∷ l) (paths_of-put path i fs))
]

enter_all-append :
    (ps qs paths : List String) → enter_all (ps ++ qs) paths ≡ enter_all qs (enter_all ps paths)
enter_all-append [] qs paths = refl
enter_all-append (p ∷ ps) qs paths = enter_all-append ps qs (enter p paths)

optional_paths :
    (path : String) (i : FileIntegrity) (fs : List (String × FileIntegrity))
    (ps start : List String)
    → paths_of fs ≡ enter_all ps start
    → paths_of (put_optional path i fs) ≡ enter_all (append_optional path ps) start
optional_paths path i fs ps start e = elim (Bool-cases (path == "")) [
  | inl h ↦ rw h e
  | inr h ↦
      rw h
        (paths_of-put path i fs ∙ ap (enter path) e ∙ sym (enter_all-append ps (path ∷ []) start))
]

pub template_paths :
    (m : Manifest) → paths_of (template_files m) ≡ enter_all (asset_paths m) (m.entrypoint ∷ [])
unfolding template_files asset_paths
template_paths m =
    let start = m.entrypoint ∷ [] in
    let two = put m.config_schema placeholder (put m.entrypoint placeholder []) in
    let first = append_optional m.icon (m.config_schema ∷ []) in
    optional_paths m.readme placeholder
      (put_optional m.ui placeholder (put_optional m.icon placeholder two))
      (append_optional m.ui first) start
      (optional_paths m.ui placeholder (put_optional m.icon placeholder two) first start (
        optional_paths m.icon placeholder two (m.config_schema ∷ []) start (
          paths_of-put m.config_schema placeholder (put m.entrypoint placeholder [])
          ∙ ap (enter m.config_schema) (paths_of-put m.entrypoint placeholder []))))

module _ (tools : Tools) (hex : List ℕ → String) (read_built : String → Result (List ℕ)) where
  pub checksum-paths :
      (ps : List String) (fs out : List (String × FileIntegrity))
      → checksum tools hex read_built ps fs ≡ ok out
      → paths_of out ≡ enter_all ps (paths_of fs)
  unfolding checksum
  checksum-paths [] fs out h = let same : fs ≡ out = cc h in ap paths_of (sym same)
  checksum-paths (p ∷ ps) fs out h =
      let (content, e, h1) = >>=-eq-ok (wrap _ _ (read_built p)) _ h in
      let i : FileIntegrity = record { sha256 = hex (tools.sha256 content) } in
      checksum-paths ps (put p i fs) out h1 ∙ ap (enter_all ps) (paths_of-put p i fs)
