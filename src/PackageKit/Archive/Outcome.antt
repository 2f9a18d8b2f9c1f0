-- ===== src/PackageKit/Archive/Outcome.antt =====
-- packagekit/archive.go: how `ArchiveDirectory` can end.
use nodima_sdk.Base.{
  ℕ, ◌≡◌, ◌⊎◌, inl, inr, refl, ap, String, true, List, [], ◌∷◌, ◌++◌, All, Result, Check, ok, err,
  Error, arith,
}
use nodima_sdk.Base.Action.{Action, continue}
use nodima_sdk.Manifest.Validate.{paths_of}
use nodima_sdk.PackageKit.Loader.{Package}
use nodima_sdk.PackageKit.Archive.Create.{
  Step, Machine, made_parent, created, removed, archive_names, afterwards, take_step, write_archive,
  check_output, archive_directory, archive_package,
}
use nodima_sdk.PackageKit.Archive.Traced.{IsQuiet, steps_of, Goes, Wrote, ending, Leaves, finishes}

module _ (machine : Machine) (range : List String → List String) (directory output : String) where
  -- The names of a package's archive.
  abbrev pub names_in : Package → List String
  names_in p = archive_names (range (paths_of (p.manifest).files))

  -- The output was looked for, and it did not exist.
  abbrev pub IsAbsent : Type 0
  IsAbsent = (e : Error) × (machine.lstat output ≡ err e) × (machine.is_not_exist e ≡ true)

  -- A package that loads was written in full beside an output that did not exist, and renamed.
  abbrev pub IsPublished : List Step → Type 0
  IsPublished t =
      (p : Package) × (temporary : String) × (entries : List (String × List ℕ)) × (machine.load
          directory
        ≡ ok p)
      × IsAbsent
      × Wrote machine p.root (names_in p) entries
      × (t
          ≡ made_parent output
            ∷ created temporary
            ∷ ((steps_of entries ++ ending machine temporary output) ++ (removed temporary ∷ [])))

  -- Nothing was renamed, and the removal of the temporary file, if there was one, came last.
  abbrev pub IsAbandoned : List Step → Type 0
  IsAbandoned t =
      (t ≡ [])
      ⊎ ((t ≡ made_parent output ∷ [])
          ⊎ ((temporary : String) × (more : List Step) × All IsQuiet more
              × (t ≡ made_parent output ∷ created temporary ∷ (more ++ (removed temporary ∷ [])))))

  abbrev pub Outcome : Check × List Step → Type 0
  Outcome (ok _, t) = IsPublished t
  Outcome (err e, t) = IsAbandoned t

  -- A call that answers and leaves the trace as it was.
  answered :
      {A : Type 0}
      → (t : List Step) (k : A → Action (List Step) (Unit {0})) (r : Result A) → IsAbandoned t
      → ((a : A) → r ≡ ok a → Outcome (k a t))
      → Outcome (continue r k t)
  answered t k (ok a) q g = g a refl
  answered t k (err e) q g = q

  made :
      (k : Unit {0} → Action (List Step) (Unit {0}))
      → Outcome (k tt (made_parent output ∷ []))
      → (let out = take_step machine (made_parent output) [] in Outcome (continue out.0 k out.1))
  unfolding take_step
  made k g =
      elim (machine.perform (made_parent output) [])
        as (λ r.
          let out = elim r as (λ _. Check × List Step) [
            | ok _ ↦ (ok tt, made_parent output ∷ [])
            | err e ↦ (err e, [])
          ] in
          Outcome (continue out.0 k out.1)) [ ok _ ↦ g | err e ↦ inl refl ]

  absent : check_output machine output ≡ ok tt → IsAbsent
  unfolding check_output
  absent h = ground arith

  ended :
      (p : Package) (temporary : String) (out : Check × List Step)
      → machine.load directory ≡ ok p
      → IsAbsent
      → Goes
          (made_parent output ∷ created temporary ∷ [])
          (Leaves machine output temporary p.root
            (names_in p)
            (made_parent output ∷ created temporary ∷ []))
          out
      → Outcome (out.0, out.1 ++ (removed temporary ∷ []))
  ended p temporary (ok _, t) l a (es, w, h) =
      (p, temporary, es, l, a, w, ap (λ u. u ++ (removed temporary ∷ [])) h)
  ended p temporary (err e, t) l a (more, h, q) =
      inr (inr (temporary, more, q, ap (λ u. u ++ (removed temporary ∷ [])) h))

  -- Whatever the operating system answers, archiving a directory has one of two outcomes. It succeeds,
  -- and then the package loaded, the output did not exist when it was looked for, and the steps that
  -- were taken are exactly these: the output's directory and a temporary file were made, an entry was
  -- written for the manifest and for each declared file, in the order of `sort_strings` and
  -- with the content that was read, the archive was closed, the file was synced and closed, and the
  -- temporary name was renamed to the output, with an attempt to remove it last. Or it returns an error, and then nothing was renamed: no step was taken, or only
  -- the directory was made, or the temporary file was made and its removal was the last step.
  pub archive_directory-outcome : Outcome (archive_directory machine range directory output [])
  unfolding archive_directory archive_package afterwards take_step
  archive_directory-outcome = answered [] _ (machine.context []) (inl refl) (λ _ _.
      answered [] _ (machine.load directory) (inl refl) (λ p l.
        answered [] _ (check_output machine output) (inl refl) (λ _ a. made _ (
          answered (made_parent output ∷ []) _ (machine.temp_name output) (inr (inl refl))
            (λ temporary _.
              let before = made_parent output ∷ created temporary ∷ [] in
              ended p temporary (write_archive machine output temporary p.root (names_in p) before)
                l (absent a) (finishes machine output temporary p.root (names_in p) before))))))
