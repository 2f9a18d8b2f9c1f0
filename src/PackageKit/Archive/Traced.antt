-- ===== src/PackageKit/Archive/Traced.antt =====
-- packagekit/archive.go: what `ArchiveDirectory` has done when it returns.
use nodima_sdk.Base.{
  ℕ, ◌≡◌, refl, sym, ap, ◌∙◌, subst, String, List, [], ◌∷◌, ◌++◌, map, All, Result, ok, err,
}
use mathlib.Core.List.{append_assoc, append-nil}
use nodima_sdk.Base.Action.{Action, continue}
use nodima_sdk.PackageKit.Archive.Create.{
  Step, Machine, header, content, closed_zip, synced, closed, renamed, clean_up, on_failure,
  take_step, file_header, write_entry, write_entries, write_archive, finish_archive,
}

-- A step that does not publish.
abbrev pub IsQuiet : Step → Type 0
IsQuiet (renamed from to) = ⊥
IsQuiet _ = Unit

-- The steps that write the entries of an archive.
abbrev pub steps_of : List (String × List ℕ) → List Step
steps_of [] = []
steps_of ((name, data') ∷ rest) = header (file_header name) ∷ content data' ∷ steps_of rest

All-append : (ss ts : List Step) → All IsQuiet ss → All IsQuiet ts → All IsQuiet (ss ++ ts)
All-append [] ts p q = q
All-append (s ∷ ss) ts (h, p) q = (h, All-append ss ts p q)

steps_of-IsQuiet : (es : List (String × List ℕ)) → All IsQuiet (steps_of es)
steps_of-IsQuiet [] = tt
steps_of-IsQuiet (e ∷ es) = (tt, (tt, steps_of-IsQuiet es))

-- An outcome after the trace `t`: what succeeds satisfies `Q`, and what fails has not published.
abbrev pub Goes :
    {A : Type 0} → List Step → (A → List Step → Type 0) → Result A × List Step → Type 0
Goes t Q (ok a, t') = Q a t'
Goes t Q (err e, t') = (more : List Step) × (t' ≡ t ++ more) × All IsQuiet more

-- The trace grew by these steps.
abbrev Adds : List Step → List Step → Unit {0} → List Step → Type 0
Adds t more _ t' = t' ≡ t ++ more

-- What comes behind steps that do not publish.
weaken :
    {A : Type 0}
    → (t more : List Step) (R : A → List Step → Type 0) (out : Result A × List Step)
    → All IsQuiet more
    → Goes (t ++ more) R out
    → Goes t R out
weaken t more R (ok a, t') q g = g
weaken t more R (err e, t') q (rest, h, r) =
    (more ++ rest, h ∙ append_assoc t more rest, All-append more rest q r)

-- Steps in a row.
step_then :
    {B : Type 0}
    → (t more : List Step) (R : B → List Step → Type 0) (k : Unit {0} → Action (List Step) B)
      (out : Result (Unit {0}) × List Step)
    → All IsQuiet more
    → Goes t (Adds t more) out
    → Goes (t ++ more) R (k tt (t ++ more))
    → Goes t R (continue out.0 k out.1)
step_then t more R k (ok _, t') q h g =
    weaken t more R (k tt t') q (subst (λ u. Goes (t ++ more) R (k tt u)) (sym h) g)
step_then t more R k (err e, t') q h g = h

-- A routine, and what is done behind each of its results.
bind_then :
    {A B : Type 0}
    → (t : List Step) (Q : A → List Step → Type 0) (R : B → List Step → Type 0)
      (k : A → Action (List Step) B) (out : Result A × List Step)
    → Goes t Q out
    → ((a : A) (t' : List Step) → Q a t' → Goes t R (k a t'))
    → Goes t R (continue out.0 k out.1)
bind_then t Q R k (ok a, t') q g = g a t' q
bind_then t Q R k (err e, t') q g = q

-- The same result, described otherwise.
Goes-map :
    {A : Type 0}
    → (t : List Step) (Q R : A → List Step → Type 0) (out : Result A × List Step) → Goes t Q out
    → ((a : A) (t' : List Step) → Q a t' → R a t')
    → Goes t R out
Goes-map t Q R (ok a, t') q g = g a t' q
Goes-map t Q R (err e, t') q g = q

-- A call that answers and leaves the trace as it was.
answer_then :
    {A B : Type 0}
    → (t : List Step) (R : B → List Step → Type 0) (k : A → Action (List Step) B) (r : Result A)
    → ((a : A) → r ≡ ok a → Goes t R (k a t))
    → Goes t R (continue r k t)
answer_then t R k (ok a) g = g a refl
answer_then t R k (err e) g = ([], sym (append-nil t), tt)

cleans_up :
    (t : List Step) (Q : Unit {0} → List Step → Type 0) (cleanup : List Step)
    (out : Result (Unit {0}) × List Step)
    → All IsQuiet cleanup
    → Goes t Q out
    → Goes t Q (clean_up cleanup out)
unfolding clean_up
cleans_up t Q cleanup (ok _, t') q g = g
cleans_up t Q cleanup (err e, t') q (more, h, r) = (
  more ++ cleanup,
  ap (λ u. u ++ cleanup) h ∙ append_assoc t more cleanup,
  All-append more cleanup r q,
)

module _ (machine : Machine) where
  performs : (step : Step) (t : List Step) → Goes t (Adds t (step ∷ [])) (take_step machine step t)
  unfolding take_step
  performs step t =
      elim (machine.perform step t)
        as (λ r.
          Goes t (Adds t (step ∷ []))
            (elim r [ ok _ ↦ (ok tt, t ++ (step ∷ [])) | err e ↦ (err e, t) ])) [
              | ok _ ↦ refl
              | err e ↦ ([], sym (append-nil t), tt)
            ]

  -- The entries were written: with these contents, in this order.
  module _ (root : String) where
    abbrev pub Wrote : List String → List (String × List ℕ) → Type 0
    Wrote names entries =
        (map (λ e. e.0) entries ≡ names) × All (λ e. machine.read_file root e.0 ≡ ok e.1) entries

    abbrev Enters : List String → List Step → Unit {0} → List Step → Type 0
    Enters names t _ t' =
        (entries : List (String × List ℕ)) × Wrote names entries × (t' ≡ t ++ steps_of entries)

    writes_entry :
        (name : String) (t : List Step)
        → Goes t
            (λ _ t'.
              (data' : List ℕ) × (machine.read_file root name ≡ ok data')
              × (t' ≡ t ++ (header (file_header name) ∷ content data' ∷ [])))
            (write_entry machine root name t)
    unfolding write_entry
    writes_entry name t = answer_then t _ _ (machine.context t) (λ _ _.
        answer_then t _ _ (machine.read_file root name) (λ data' h.
          step_then t (header (file_header name) ∷ []) _ _
            (take_step machine (header (file_header name)) t) (tt, tt)
            (performs (header (file_header name)) t)
            (Goes-map (t ++ (header (file_header name) ∷ [])) _ _
              (take_step machine (content data') (t ++ (header (file_header name) ∷ [])))
              (performs (content data') (t ++ (header (file_header name) ∷ [])))
              (λ _ t' e. (
                data',
                h,
                e ∙ append_assoc t (header (file_header name) ∷ []) (content data' ∷ []),
              )))))

    writes_entries :
        (names : List String) (t : List Step)
        → Goes t (Enters names t) (write_entries machine root names t)
    unfolding write_entries
    writes_entries [] t = ([], (refl, tt), sym (append-nil t))
    writes_entries (name ∷ names) t =
        bind_then t _ _ _ (write_entry machine root name t) (writes_entry name t)
          (λ _ t' (data', h, e).
            let row = header (file_header name) ∷ content data' ∷ [] in
            subst (λ u. Goes t (Enters (name ∷ names) t) (write_entries machine root names u))
              (sym e)
              (weaken t row (Enters (name ∷ names) t) (write_entries machine root names (t ++ row))
                (tt, (tt, tt))
                (Goes-map (t ++ row) (Enters names (t ++ row)) (Enters (name ∷ names) t)
                  (write_entries machine root names (t ++ row)) (writes_entries names (t ++ row))
                  (λ _ t'' (es, (ns, rs), e'). (
                    (name, data') ∷ es,
                    (ap (λ l. name ∷ l) ns, (h, rs)),
                    e' ∙ append_assoc t row (steps_of es),
                  )))))

  -- The archive was written, closed, synced and renamed.
  abbrev pub ending : String → String → List Step
  ending temporary output = closed_zip ∷ synced ∷ closed ∷ renamed temporary output ∷ []

  ends :
      (output temporary : String) (t : List Step)
      → Goes t (Adds t (ending temporary output)) (finish_archive machine output temporary t)
  unfolding finish_archive
  ends output temporary t =
      let t1 = t ++ (closed_zip ∷ []) in
      let t2 = t1 ++ (synced ∷ []) in
      let t3 = t2 ++ (closed ∷ []) in
      step_then t (closed_zip ∷ []) _ _ (on_failure (closed ∷ []) (take_step machine closed_zip) t)
        (tt, tt)
        (cleans_up t _ (closed ∷ []) (take_step machine closed_zip t) (tt, tt)
          (performs closed_zip t))
        (step_then t1 (synced ∷ []) _ _ (on_failure (closed ∷ []) (take_step machine synced) t1)
          (tt, tt)
          (cleans_up t1 _ (closed ∷ []) (take_step machine synced t1) (tt, tt) (performs synced t1))
          (step_then t2 (closed ∷ []) _ _ (take_step machine closed t2) (tt, tt)
            (performs closed t2)
            (Goes-map t3 _ _ (take_step machine (renamed temporary output) t3)
              (performs (renamed temporary output) t3)
              (λ _ t' e.
                e
                ∙ append_assoc t2 (closed ∷ []) (renamed temporary output ∷ [])
                ∙ append_assoc t1 (synced ∷ []) (closed ∷ renamed temporary output ∷ [])
                ∙ append_assoc t (closed_zip ∷ [])
                    (synced ∷ closed ∷ renamed temporary output ∷ [])))))

  abbrev pub Leaves :
      String → String → String → List String → List Step → Unit {0} → List Step → Type 0
  Leaves output temporary root names t _ t' =
      (entries : List (String × List ℕ)) × Wrote root names entries
      × (t' ≡ t ++ (steps_of entries ++ ending temporary output))

  pub finishes :
      (output temporary root : String) (names : List String) (t : List Step)
      → Goes t
          (Leaves output temporary root names t)
          (write_archive machine output temporary root names t)
  unfolding write_archive
  finishes output temporary root names t =
      bind_then t (Enters root names t) _ _
        (on_failure (closed_zip ∷ closed ∷ []) (write_entries machine root names) t)
        (cleans_up t _ (closed_zip ∷ closed ∷ []) (write_entries machine root names t)
          (tt, (tt, tt)) (writes_entries root names t))
        (λ _ t' (es, w, e).
          subst
            (λ u.
              Goes t (Leaves output temporary root names t)
                (finish_archive machine output temporary u))
            (sym e)
            (weaken t (steps_of es) (Leaves output temporary root names t)
              (finish_archive machine output temporary (t ++ steps_of es)) (steps_of-IsQuiet es)
              (Goes-map (t ++ steps_of es) _ (Leaves output temporary root names t)
                (finish_archive machine output temporary (t ++ steps_of es))
                (ends output temporary (t ++ steps_of es))
                (λ _ t'' e'.
                  (es, w, e' ∙ append_assoc t (steps_of es) (ending temporary output))))))
