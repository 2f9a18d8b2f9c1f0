-- ===== src/PackageKit/Template/Completes.antt =====
-- A template that is accepted completes to a valid manifest.
use nodima_sdk.Base.{
  ℕ, ◌+◌, ◌*◌, ◌/◌, ◌%◌, ◌<◌, ◌≡◌, ◌≢◌, inl, inr, sym, ap, ◌∙◌, subst, String, Bool, true, not,
  List, [], ◌∷◌, length, All, Result, ok, wrap, reject, codes, arith, ◌==◌, Bool-cases, is_empty,
  >>=-eq-ok, >>-eq-ok, wrap-eq-ok, ◌||◌, if◌then◌else◌, ltb,
}
use nodima_sdk.Base.Int.{above}
use nodima_sdk.Manifest.Types.{Manifest, FileIntegrity}
use nodima_sdk.Manifest.Digest.{IsDigest, is_lower_hex}
use nodima_sdk.Manifest.Paths.{IsPath, IsFile, length-paths_of}
use nodima_sdk.Manifest.Validate.{validate_manifest, paths_of}
use nodima_sdk.Manifest.Valid.{IsManifest, validate_manifest_iff}
use nodima_sdk.PackageKit.{FileInfo, Tools, max_manifest_bytes}
use nodima_sdk.PackageKit.Documents.{decode_manifest}
use nodima_sdk.PackageKit.Loader.{encode_hex}
use nodima_sdk.PackageKit.Template.Entered.{template_paths, checksum-paths}
use nodima_sdk.PackageKit.Template.{
  put, template_files, asset_paths, load_manifest_template, checksum,
}

abbrev HasDigest : String × FileIntegrity → Type 0
HasDigest f = IsDigest f.1

put-digests :
    (path : String) (i : FileIntegrity) (fs : List (String × FileIntegrity))
    → IsDigest i
    → All HasDigest fs
    → All HasDigest (put path i fs)
unfolding put
put-digests path i [] d a = (d, tt)
put-digests path i ((p, j) ∷ fs) d (x, a) = elim (Bool-cases (p == path)) [
  | inl e ↦ rw e (d, a)
  | inr e ↦ rw e (x, put-digests path i fs d a)
]

-- What SHA-256 and hex.EncodeToString are documented to give: 32 bytes, and their digits.
pub record Hashes (tools : Tools) (hex : List ℕ → String) : Type 0 where
  pub sums : (content : List ℕ) → length (tools.sha256 content) ≡ 32
  pub bytes : (content : List ℕ) → All (λ b. b < 256) (tools.sha256 content)
  pub digits :
      (content : List ℕ) → codes (hex (tools.sha256 content)) ≡ encode_hex (tools.sha256 content)

length-encode_hex : (bs : List ℕ) → length (encode_hex bs) ≡ 2 * length bs
unfolding encode_hex
length-encode_hex [] = omega arith
length-encode_hex (b ∷ bs) = omega (arith, length-encode_hex bs)

nibble : (n : ℕ) → n < 16 → is_lower_hex (if ltb n 10 then n + 48 else n + 87) ≡ true
nibble n h = ground arith

hex_digits :
    (bs : List ℕ) → All (λ b. b < 256) bs → All (λ c. is_lower_hex c ≡ true) (encode_hex bs)
unfolding encode_hex
hex_digits [] a = tt
hex_digits (b ∷ bs) (h, a) =
    (nibble (b / 16) (omega arith), (nibble (b % 16) (omega arith), hex_digits bs a))

hex-IsDigest :
    (tools : Tools) (hex : List ℕ → String) (content : List ℕ)
    → Hashes tools hex
    → IsDigest (record { sha256 = hex (tools.sha256 content) })
hex-IsDigest tools hex content law =
    let e = law.digits content in
    (
      ap length e ∙ omega (arith, length-encode_hex (tools.sha256 content), law.sums content),
      subst (All (λ c. is_lower_hex c ≡ true)) (sym e)
          (hex_digits (tools.sha256 content) (law.bytes content)),
    )

module _ (tools : Tools) (hex : List ℕ → String) (read_built : String → Result (List ℕ)) where
  checksum-digests :
      (ps : List String) (fs out : List (String × FileIntegrity))
      → Hashes tools hex
      → checksum tools hex read_built ps fs ≡ ok out
      → All HasDigest fs
      → All HasDigest out
  unfolding checksum
  checksum-digests [] fs out law h a = let same : fs ≡ out = cc h in subst (All HasDigest) same a
  checksum-digests (p ∷ ps) fs out law h a =
      let (content, e, h1) = >>=-eq-ok (wrap _ _ (read_built p)) _ h in
      let i : FileIntegrity = record { sha256 = hex (tools.sha256 content) } in
      checksum-digests ps (put p i fs) out law h1
        (put-digests p i fs (hex-IsDigest tools hex content law) a)

abbrev IsPlaced : String → Type 0
IsPlaced path = (path ≢ "manifest.json") × IsPath path

placed : (fs : List (String × FileIntegrity)) → All IsFile fs → All IsPlaced (paths_of fs)
placed [] a = tt
placed (f ∷ fs) ((n, p, d), a) = ((n, p), placed fs a)

filed :
    (fs : List (String × FileIntegrity))
    → All IsPlaced (paths_of fs)
    → All HasDigest fs
    → All IsFile fs
filed [] a d = tt
filed (f ∷ fs) ((n, p), a) (x, d) = ((n, p, x), filed fs a d)

-- The files may be replaced by others at the same paths.
refilled :
    (m : Manifest) (fs gs : List (String × FileIntegrity))
    → paths_of fs ≡ paths_of gs
    → All HasDigest gs
    → IsManifest (record m { files = fs })
    → IsManifest (record m { files = gs })
refilled m fs gs e d v =
    let n : length fs ≡ length gs = sym (length-paths_of fs) ∙ ap length e ∙ length-paths_of gs in
    record {
      format = v.format;
      id = v.id;
      version = v.version;
      abi = v.abi;
      loadable = v.loadable;
      entrypoint = rw (← e) v.entrypoint;
      config_schema = rw (← e) v.config_schema;
      apart = v.apart;
      assets = rw (← e) v.assets;
      behavior = v.behavior;
      some_ports = v.some_ports;
      implemented = v.implemented;
      distributed = v.distributed;
      ports = v.ports;
      capabilities = v.capabilities;
      limits = v.limits;
      some_files = rw (← n) v.some_files;
      files = filed gs (subst (All IsPlaced) e (placed fs v.files)) d;
    }

module _ (tools : Tools) (assets required optional : Bool) (lstat : String → Result FileInfo)
    (read_file : String → Result (List ℕ)) where
  template-valid :
      (template_path : String) (m : Manifest)
      → load_manifest_template tools assets required optional lstat read_file template_path ≡ ok m
      → validate_manifest assets required optional (record m { files = template_files m }) ≡ ok tt
  unfolding load_manifest_template template_files
  template-valid template_path m h =
      let (info, e, h1) = >>=-eq-ok (wrap _ [] (lstat template_path)) _ h in
      let (r, h2) = >>-eq-ok (reject (info.is_symlink || not info.is_regular) _) _ h1 in
      let (s, h3) = >>-eq-ok (reject (above info.size max_manifest_bytes) _) _ h2 in
      let (bytes, f, h4) = >>=-eq-ok (wrap _ [] (read_file template_path)) _ h3 in
      let (k, g, h5) = >>=-eq-ok (wrap _ [] (decode_manifest tools.json bytes)) _ h4 in
      let (n, h6) = >>-eq-ok (reject (not (is_empty k.files)) _) _ h5 in
      let (v, h7) =
        >>-eq-ok
          (wrap _ []
            (validate_manifest assets required optional (record k { files = template_files k })))
          _ h6 in
      let same : record k { files = [] } ≡ m = cc h7 in
      subst
        (λ x.
          validate_manifest assets required optional (record x { files = template_files x })
          ≡ ok tt)
        same (wrap-eq-ok _ [] _ v)

  -- A template that loadManifestTemplate accepts completes: when BuildGo has checksummed the
  -- entrypoint and the assets that the template names, the completed manifest passes validation.
  -- SHA-256 is taken to give 32 bytes, and hex.EncodeToString their digits.
  pub template-completes :
      (hex : List ℕ → String) (read_built : String → Result (List ℕ)) (template_path : String)
      (m : Manifest) (files : List (String × FileIntegrity))
      → Hashes tools hex
      → load_manifest_template tools assets required optional lstat read_file template_path ≡ ok m
      → checksum tools hex read_built (m.entrypoint ∷ asset_paths m) [] ≡ ok files
      → validate_manifest assets required optional (record m { files = files }) ≡ ok tt
  template-completes hex read_built template_path m files law h c =
      let v =
        (validate_manifest_iff assets required optional (record m { files = template_files m })).0
          (template-valid template_path m h) in
      let same =
        template_paths m
        ∙ sym (checksum-paths tools hex read_built (m.entrypoint ∷ asset_paths m) [] files c) in
      (validate_manifest_iff assets required optional (record m { files = files })).1 (
        refilled m (template_files m) files same
          (checksum-digests tools hex read_built (m.entrypoint ∷ asset_paths m) [] files law c tt)
          v)
