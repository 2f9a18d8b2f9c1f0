-- ===== src/PackageKit/Loader/Verified.antt =====
-- What a loaded package is, whatever the file system holds.
use nodima_sdk.Base.{
  ℕ, ◌+◌, ◌-◌, ◌≤◌, min, ◌≡◌, ap, ◌∙◌, inr, String, some, List, [], ◌∷◌, length, All, Occurs,
  IsDistinct, ok, codes, arith, >>=-eq-ok, >>-eq-ok, wrap-eq-ok, eq_iff, subst, reject, wrap, leb,
  ltb, not, ◌%◌, ◌^◌,
}
use nodima_sdk.PackagePath.{equal}
use nodima_sdk.PackagePath.Names.{equal_iff}
use nodima_sdk.Manifest.Types.{Manifest, FileIntegrity}
use nodima_sdk.Manifest.Validate.{paths_of}
use nodima_sdk.PackageKit.{Root, Tools, max_package_bytes}
use nodima_sdk.PackageKit.Reading.{
  read_regular_file, read_regular_file-bounded, IsRead, read_regular_file-IsRead,
}
use nodima_sdk.PackageKit.Documents.{lookup}
use nodima_sdk.PackageKit.Loader.{encode_hex, limit_of, load_file, load_files}

-- The bytes of all files.
abbrev pub size_of : List (String × List ℕ) → ℕ
size_of [] = 0
size_of ((p, content) ∷ rest) = length content + size_of rest

-- The whole file was read below the root and is there, within its limit, and has the digest.
abbrev pub IsVerified :
    Tools → Root → Manifest → List (String × List ℕ) → String × FileIntegrity → Type 0
IsVerified tools root m loaded f =
    (content : List ℕ) × IsRead root f.0 content
    × (lookup f.0 loaded ≡ some content)
    × (length content ≤ limit_of m f.0)
    × (encode_hex (tools.sha256 content) ≡ codes (f.1).sha256)

lookup_first :
    (p : String) (content : List ℕ) (loaded : List (String × List ℕ))
    → lookup p ((p, content) ∷ loaded) ≡ some content
unfolding lookup
lookup_first p content loaded = ground (arith, eq_iff p p)

module _ (tools : Tools) (root : Root) (m : Manifest) where
  load_file-ok :
      (p : String) (i : FileIntegrity) (total sum : ℕ) (content : List ℕ)
      → load_file tools root m p i total ≡ ok (content, sum)
      → (sum ≡ total + length content)
        × (sum ≤ max_package_bytes)
        × (length content ≤ limit_of m p)
        × (encode_hex (tools.sha256 content) ≡ codes i.sha256)
  unfolding load_file
  load_file-ok p i total sum content h = ground (
    arith,
    read_regular_file-bounded root p (min (limit_of m p) (max_package_bytes - total)) content,
    equal_iff (encode_hex (tools.sha256 content)) (codes i.sha256),
  )

  load_file-IsRead :
      (p : String) (i : FileIntegrity) (total sum : ℕ) (content : List ℕ)
      → load_file tools root m p i total ≡ ok (content, sum)
      → IsRead root p content
  unfolding load_file
  load_file-IsRead p i total sum content h =
      let limit = min (limit_of m p) (max_package_bytes - total) in
      let (a, h1) = >>-eq-ok (reject (leb max_package_bytes total) _) _ h in
      let (bytes, r, h2) = >>=-eq-ok (wrap _ _ (read_regular_file root p limit)) _ h1 in
      let sum' = (total + length bytes) % 2 ^ 64 in
      let (b, h3) = >>-eq-ok (reject (ltb max_package_bytes sum') _) _ h2 in
      let (d, h4) =
        >>-eq-ok (reject (not (equal (encode_hex (tools.sha256 bytes)) (codes i.sha256))) _) _ h3 in
      let same : bytes ≡ content = cc h4 in
      subst (IsRead root p) same (read_regular_file-IsRead root p limit bytes (wrap-eq-ok _ _ _ r))

  finished :
      (total : ℕ) (loaded out : List (String × List ℕ))
      → load_files tools root m [] total loaded ≡ ok out
      → out ≡ loaded
  unfolding load_files
  finished total loaded out h = cc

  step :
      (p : String) (i : FileIntegrity) (fs : List (String × FileIntegrity)) (total : ℕ)
      (loaded out : List (String × List ℕ))
      → load_files tools root m ((p, i) ∷ fs) total loaded ≡ ok out
      → (content : List ℕ) × (sum : ℕ) × (load_file tools root m p i total ≡ ok (content, sum))
        × (load_files tools root m fs sum ((p, content) ∷ loaded) ≡ ok out)
  unfolding load_files
  step p i fs total loaded out h =
      let ((content, sum), e, f) = >>=-eq-ok (load_file tools root m p i total) _ h in
      (content, sum, e, f)

  -- What the loop enters stays, unless its path comes again.
  kept :
      (fs : List (String × FileIntegrity)) (total : ℕ) (loaded out : List (String × List ℕ))
      (p : String)
      → load_files tools root m fs total loaded ≡ ok out
      → ¬ Occurs p (paths_of fs)
      → lookup p out ≡ lookup p loaded
  unfolding lookup
  kept [] total loaded out p h n = ap (λ l. lookup p l) (finished total loaded out h)
  kept ((q, i) ∷ fs) total loaded out p h n =
      let (content, sum, e, f) = step q i fs total loaded out h in
      let ih = kept fs sum ((q, content) ∷ loaded) out p f (λ o. n (inr o)) in
      ground (arith, eq_iff q p)

  pub load_files-IsVerified :
      (fs : List (String × FileIntegrity)) (total : ℕ) (loaded out : List (String × List ℕ))
      → load_files tools root m fs total loaded ≡ ok out
      → IsDistinct (paths_of fs)
      → All (IsVerified tools root m out) fs
  unfolding load_files
  load_files-IsVerified [] total loaded out h d = tt
  load_files-IsVerified ((p, i) ∷ fs) total loaded out h (n, d) =
      let (content, sum, e, f) = step p i fs total loaded out h in
      let (a, b, c, g) = load_file-ok p i total sum content e in
      let there = kept fs sum ((p, content) ∷ loaded) out p f n in
      (
        (
          content,
          load_file-IsRead p i total sum content e,
          there ∙ lookup_first p content loaded,
          c,
          g,
        ),
        load_files-IsVerified fs sum ((p, content) ∷ loaded) out f d,
      )

  pub load_files-size :
      (fs : List (String × FileIntegrity)) (total : ℕ) (loaded out : List (String × List ℕ))
      → load_files tools root m fs total loaded ≡ ok out
      → total ≤ max_package_bytes
      → total + size_of out ≤ max_package_bytes + size_of loaded
  unfolding load_files
  load_files-size [] total loaded out h le = omega (arith, ap size_of (finished total loaded out h))
  load_files-size ((p, i) ∷ fs) total loaded out h le =
      let (content, sum, e, f) = step p i fs total loaded out h in
      let (a, b, c, g) = load_file-ok p i total sum content e in
      omega (arith, load_files-size fs sum ((p, content) ∷ loaded) out f b, a)
