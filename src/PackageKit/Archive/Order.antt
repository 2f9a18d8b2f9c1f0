-- ===== src/PackageKit/Archive/Order.antt =====
-- packagekit/archive.go: `ArchiveDirectory`, and the order in which its loop meets the files.
use text.Mathlib.TextEquality.{Char-path}
use Prim.Native.String as Text
use Prim.Native.Char.{code}
use mathlib.Core.List.{Permᴰ}
use nodima_sdk.Base.{ℕ, ◌≡◌, refl, ◌∙◌, String, true, false, List, [], ◌∷◌, arith, codes}
use nodima_sdk.PackageKit.Archive.Create.{
  Machine, Step, before, insert, sort_strings, archive_package, archive_directory, check_output,
}
use nodima_sdk.Base.Action.{lift, ◌>>=◌, ◌>>◌}
use nodima_sdk.Manifest.Validate.{paths_of}

before_total : (as' bs : List ℕ) → before as' bs ≡ false → before bs as' ≡ true
unfolding before
before_total [] bs h = ground arith
before_total (a ∷ as') [] h = refl
before_total (a ∷ as') (b ∷ bs) h = ground (arith, before_total as' bs)

before_trans :
    (as' bs cs : List ℕ) → before as' bs ≡ true → before bs cs ≡ true → before as' cs ≡ true
unfolding before
before_trans [] bs cs h g = refl
before_trans (a ∷ as') [] cs h g = ground arith
before_trans (a ∷ as') (b ∷ bs) [] h g = ground arith
before_trans (a ∷ as') (b ∷ bs) (c ∷ cs) h g = ground (arith, before_trans as' bs cs)

before_antisym : (as' bs : List ℕ) → before as' bs ≡ true → before bs as' ≡ true → as' ≡ bs
unfolding before
before_antisym [] [] h g = refl
before_antisym [] (b ∷ bs) h g = ground arith
before_antisym (a ∷ as') [] h g = ground arith
before_antisym (a ∷ as') (b ∷ bs) h g = ground (arith, before_antisym as' bs)

codes-injective : (s t : String) → codes s ≡ codes t → s ≡ t
unfolding codes
codes-injective Text.[] Text.[] h = refl
codes-injective Text.[] (Text.◌∷◌ d t) h = cc h
codes-injective (Text.◌∷◌ c s) Text.[] h = cc h
codes-injective (Text.◌∷◌ c s) (Text.◌∷◌ d t) h =
    let e : code c ≡ code d = cc h in
    let r : codes s ≡ codes t = cc h in λ i. Text.◌∷◌ (Char-path c d e i) (codes-injective s t r i)

same :
    (s t : String) → before (codes s) (codes t) ≡ true → before (codes t) (codes s) ≡ true → s ≡ t
same s t h g = codes-injective s t (before_antisym (codes s) (codes t) h g)

insert_comm : (a b : String) (xs : List String) → insert a (insert b xs) ≡ insert b (insert a xs)
unfolding insert
insert_comm a b [] = ground (arith, same a b, before_total (codes a) (codes b))
insert_comm a b (x ∷ xs) = ground (
  arith,
  insert_comm a b xs,
  same a b,
  before_total (codes a) (codes b),
  before_trans (codes a) (codes b) (codes x),
  before_trans (codes b) (codes a) (codes x),
)

sort_strings-perm : {xs ys : List String} → Permᴰ xs ys → sort_strings xs ≡ sort_strings ys
unfolding sort_strings
sort_strings-perm Permᴰ.nil = refl
sort_strings-perm (Permᴰ.cons e d) = λ i. insert (e i) (sort_strings-perm d i)
sort_strings-perm (Permᴰ.swap {a = a} {b = b} {l = l} e f) =
    insert_comm a b (sort_strings l) ∙ (λ i. insert (f i) (insert (e i) (sort_strings l)))
sort_strings-perm (Permᴰ.trans d e) = sort_strings-perm d ∙ sort_strings-perm e

archive_package-perm :
    (machine : Machine) (output root : String) {names others : List String}
    → Permᴰ names others
    → archive_package machine output root names ≡ archive_package machine output root others
unfolding archive_package
archive_package-perm machine output root d = rw (sort_strings-perm d) refl

-- An archive does not depend on the order in which the loop meets the files of the manifest: for any
-- two orders of the same names, whatever the operating system answers, archiving a directory has the
-- same result, takes the same steps in the same order, and so writes the same entries.
pub archive_directory-deterministic :
    (machine : Machine) (range other : List String → List String) (directory output : String)
    (t : List Step)
    → ((names : List String) → Permᴰ (range names) (other names))
    → archive_directory machine range directory output t
      ≡ archive_directory machine other directory output t
unfolding archive_directory
archive_directory-deterministic machine range other directory output t perm = λ i.
    ((λ u. (machine.context u, u))
        >> (lift (machine.load directory) >>= λ p.
            lift (check_output machine output)
            >> archive_package-perm machine output p.root (perm (paths_of (p.manifest).files)) i))
      t
