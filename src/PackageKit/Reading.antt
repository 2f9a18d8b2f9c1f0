-- ===== src/PackageKit/Reading.antt =====
-- packagekit/loader.go: `readRegularFile`.
use nodima_sdk.Base.{
  ℕ, ◌+◌, ◌-◌, ◌%◌, ◌^◌, ◌≤◌, ◌≡◌, String, not, leb, ltb, List, [], ◌∷◌, length, take, Result, ok,
  err, Error, eof, errorf, num, int, reject, ◌>>=◌, ◌>>◌, if◌then◌else◌, arith, >>-eq-ok, >>=-eq-ok,
  ap, ◌∙◌, true, false, length-take, refl,
}
use nodima_sdk.Base.Int.{ℤ, pos, negsuc}
use nodima_sdk.Wire.{Reader}
use nodima_sdk.Manifest.Validate.{validate_path}
use nodima_sdk.PackageKit.{Root, File, FileInfo}

-- `uint64(n)`
abbrev pub uint64 : ℤ → ℕ
uint64 (pos n) = n % 2 ^ 64
uint64 (negsuc n) = (2 ^ 64 - (n + 1) % 2 ^ 64) % 2 ^ 64

-- `io.ReadAll(io.LimitReader(file, limit))`: at the limit the reader is at its end, whatever follows.
abbrev at_end : List ℕ → Error → Result (List ℕ)
at_end content eof = ok content
at_end content e = err e

unfoldable pub read_all : ℕ → Reader → Result (List ℕ)
read_all limit r =
    if leb limit (length r.content) then ok (take limit r.content) else at_end r.content r.final

-- `readRegularFile`
unfoldable pub read_regular_file : Root → String → ℕ → Result (List ℕ)
read_regular_file root package_path maximum_bytes = do
  validate_path package_path
  info ← root.lstat package_path
  reject info.is_symlink (errorf "package files cannot be symbolic links" [])
  reject (not info.is_regular) (errorf "package file must be a regular file" [])
  reject (ltb maximum_bytes (uint64 info.size))
      (errorf "file is %d bytes, limit is %d" (int info.size ∷ (num maximum_bytes ∷ [])))
  file ← root.open_file package_path
  opened ← file.stat
  reject (not opened.is_regular) (errorf "opened package file must be a regular file" [])
  content ← read_all (maximum_bytes + 1) file.content
  reject (ltb maximum_bytes (length content))
      (errorf "file exceeds %d-byte limit" (num maximum_bytes ∷ []))
  ok content

-- What is read is at a path of a package, and no longer than the limit.
pub read_regular_file-bounded :
    (root : Root) (package_path : String) (maximum_bytes : ℕ) (content : List ℕ)
    → read_regular_file root package_path maximum_bytes ≡ ok content
    → (validate_path package_path ≡ ok tt) × (length content ≤ maximum_bytes)
unfolding read_regular_file
read_regular_file-bounded root package_path maximum_bytes content h = ground arith

-- The path names a regular file, that is no symbolic link and is still regular once it is open, and
-- these are the bytes to its end.
pub record IsRead (root : Root) (package_path : String) (content : List ℕ) : Type 0 where
  pub info : FileInfo
  pub file : File
  pub opened : FileInfo
  pub valid : validate_path package_path ≡ ok tt
  pub named : root.lstat package_path ≡ ok info
  pub is_file : (info.is_symlink ≡ false) × (info.is_regular ≡ true)
  pub taken : root.open_file package_path ≡ ok file
  pub is_still_file : (file.stat ≡ ok opened) × (opened.is_regular ≡ true)
  pub whole : (file.content.content ≡ content) × (file.content.final ≡ eof)

at_end-ok :
    (bytes : List ℕ) (e : Error) (content : List ℕ)
    → at_end bytes e ≡ ok content
    → (bytes ≡ content) × (e ≡ eof)
at_end-ok bytes eof content h = (cc h, refl)
at_end-ok bytes _ content h = cc h

-- Below its limit, a reader was read to its end.
read_all-whole :
    (limit : ℕ) (r : Reader) (content : List ℕ)
    → read_all (limit + 1) r ≡ ok content
    → length content ≤ limit
    → (r.content ≡ content) × (r.final ≡ eof)
unfolding read_all
read_all-whole limit r content h le =
    ground (arith, at_end-ok r.content r.final content, length-take (limit + 1) r.content)

pub read_regular_file-IsRead :
    (root : Root) (package_path : String) (maximum_bytes : ℕ) (content : List ℕ)
    → read_regular_file root package_path maximum_bytes ≡ ok content
    → IsRead root package_path content
unfolding read_regular_file
read_regular_file-IsRead root package_path maximum_bytes content h =
    let (v, h1) = >>-eq-ok (validate_path package_path) _ h in
    let (info, l, h2) = >>=-eq-ok (root.lstat package_path) _ h1 in
    let (a, h3) = >>-eq-ok (reject info.is_symlink _) _ h2 in
    let (b, h4) = >>-eq-ok (reject (not info.is_regular) _) _ h3 in
    let (c, h5) = >>-eq-ok (reject (ltb maximum_bytes (uint64 info.size)) _) _ h4 in
    let (file, o, h6) = >>=-eq-ok (root.open_file package_path) _ h5 in
    let (opened, s, h7) = >>=-eq-ok (file.stat) _ h6 in
    let (d, h8) = >>-eq-ok (reject (not opened.is_regular) _) _ h7 in
    let (bytes, r, h9) = >>=-eq-ok (read_all (maximum_bytes + 1) file.content) _ h8 in
    let (e, h10) = >>-eq-ok (reject (ltb maximum_bytes (length bytes)) _) _ h9 in
    let same : bytes ≡ content = cc h10 in
    record {
      info = info;
      file = file;
      opened = opened;
      valid = v;
      named = l;
      is_file = ground (arith, a, b);
      taken = o;
      is_still_file = (s, ground (arith, d));
      whole =
          read_all-whole maximum_bytes file.content content (r ∙ ap (λ b. ok b) same)
            (read_regular_file-bounded root package_path maximum_bytes content h).1;
    }
