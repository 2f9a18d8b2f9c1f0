-- ===== src/Manifest/Valid.antt =====
-- When a manifest is accepted.
use nodima_sdk.Base.{
  ◌≤◌, String, Bool, List, [], ◌≡◌, ◌≢◌, ◌↔◌, ◌⊎◌, inl, inr, ok, length, All, Occurs, IsDistinct,
  codes, arith, eq_iff, reject, errorf, is_empty, chain_iff, wrap_iff,
}
use nodima_sdk.Session.{abi_version}
use nodima_sdk.Regex.Language.{Matches}
use nodima_sdk.Manifest.{
  IsLimited, validate_package_limits_iff, IsKnown, texts_of, validate_manifest_capabilities_iff,
}
use nodima_sdk.Manifest.Types.{Manifest, Port, ImplementationKind, ExecutionBehavior}
use nodima_sdk.Manifest.Patterns.{
  package_id_pattern, semantic_version_pattern, validate_package_id_iff,
  validate_semantic_version_iff,
}
use nodima_sdk.Manifest.Ports.Valid.{
  IsImplemented, IsDistributed, IsPort, ids_of, check_javascript_iff, check_distribution_iff,
  check_ports_iff,
}
use nodima_sdk.Manifest.Paths.{
  IsPath, IsFile, IsOptional, IsAsset, check_paths_iff, check_checksums_iff,
}
use nodima_sdk.Manifest.Validate.{
  package_format_version, check_identity, check_behavior, paths_of, validate_manifest,
}

abbrev pub IsLoadable : ImplementationKind → Type 0
IsLoadable k = (k ≡ ImplementationKind.wasm) ⊎ (k ≡ ImplementationKind.javascript)

abbrev pub IsBehavior : ExecutionBehavior → Type 0
IsBehavior (ExecutionBehavior.other b) = ⊥
IsBehavior _ = Unit

-- What a manifest promises that is accepted.
pub record IsManifest (m : Manifest) : Type 0 where
  pub format : m.format_version ≡ package_format_version
  pub id : Matches package_id_pattern (codes m.id)
  pub version : Matches semantic_version_pattern (codes m.version)
  pub abi : m.abi ≡ abi_version
  pub loadable : IsLoadable m.implementation
  pub entrypoint : IsPath m.entrypoint × Occurs m.entrypoint (paths_of m.files)
  pub config_schema : IsPath m.config_schema × Occurs m.config_schema (paths_of m.files)
  pub apart : m.entrypoint ≢ m.config_schema
  pub assets : IsAsset m m.icon × IsAsset m m.ui × IsAsset m m.readme
  pub behavior : IsBehavior m.behavior
  pub some_ports : m.ports ≢ []
  pub implemented : IsImplemented m.implementation m.behavior m.capabilities m.distribution m.ports
  pub distributed : IsDistributed m.behavior m.capabilities m.ports m.distribution
  pub ports : All IsPort m.ports × IsDistinct (ids_of m.ports)
  pub capabilities : All IsKnown m.capabilities × IsDistinct (texts_of m.capabilities)
  pub limits : IsLimited m.limits
  pub some_files : (2 ≤ length m.files) × (length m.files ≤ 32)
  pub files : All IsFile m.files

check_identity_iff :
    (m : Manifest)
    → (check_identity m ≡ ok tt) ↔ (
        (m.format_version ≡ package_format_version)
        × Matches package_id_pattern (codes m.id)
        × Matches semantic_version_pattern (codes m.version)
        × (m.abi ≡ abi_version)
        × IsLoadable m.implementation)
unfolding check_identity
check_identity_iff m = ground (
  arith,
  eq_iff m.format_version package_format_version,
  eq_iff m.abi abi_version,
  validate_package_id_iff m.id,
  validate_semantic_version_iff m.version,
)

check_behavior_iff : (b : ExecutionBehavior) → (check_behavior b ≡ ok tt) ↔ IsBehavior b
unfolding check_behavior
check_behavior_iff b = ground arith

some_ports_iff :
    (ps : List Port)
    → (reject (is_empty ps) (errorf "runner package requires at least one port" []) ≡ ok tt)
      ↔ (ps ≢ [])
some_ports_iff ps = ground arith

-- The parts of a manifest's validity, in the order of the checks.
abbrev Parts : Manifest → Type 0
Parts m =
    ((m.format_version ≡ package_format_version)
      × Matches package_id_pattern (codes m.id)
      × Matches semantic_version_pattern (codes m.version)
      × (m.abi ≡ abi_version)
      × IsLoadable m.implementation)
    × ((IsPath m.entrypoint
          × (IsPath m.config_schema
              × ((m.entrypoint ≢ m.config_schema)
                  × (IsOptional m.icon × (IsOptional m.ui × IsOptional m.readme)))))
        × (IsBehavior m.behavior
            × ((m.ports ≢ [])
                × (IsImplemented m.implementation m.behavior m.capabilities m.distribution m.ports
                    × (IsDistributed m.behavior m.capabilities m.ports m.distribution
                        × ((All IsPort m.ports × IsDistinct (ids_of m.ports))
                            × ((All IsKnown m.capabilities × IsDistinct (texts_of m.capabilities))
                                × (IsLimited m.limits
                                    × ((2 ≤ length m.files)
                                        × ((length m.files ≤ 32)
                                            × (All IsFile m.files
                                                × (Occurs m.entrypoint (paths_of m.files)
                                                    × Occurs m.config_schema (paths_of m.files)
                                                    × ((m.icon ≡ "")
                                                        ⊎ Occurs m.icon (paths_of m.files))
                                                    × ((m.ui ≡ "") ⊎ Occurs m.ui (paths_of m.files))
                                                    × ((m.readme ≡ "")
                                                        ⊎ Occurs m.readme
                                                            (paths_of m.files))))))))))))))

IsAsset-iff :
    (m : Manifest) (p : String)
    → (IsOptional p × ((p ≡ "") ⊎ Occurs p (paths_of m.files))) ↔ IsAsset m p
IsAsset-iff m p = (
  λ (a, b). elim a [ inl e ↦ inl e | inr x ↦ elim b [ inl e ↦ inl e | inr y ↦ inr (x, y) ] ],
  λ c. elim c [ inl e ↦ (inl e, inl e) | inr (x, y) ↦ (inr x, inr y) ],
)

gather : (m : Manifest) → Parts m → IsManifest m
gather m
      (
        (f, i, v, a, l),
        (
          (pe, (pc, (ne, (oi, (ou, ord))))),
          (b, (sp, (im, (di, (ps, (cs, (li, (n2, (n32, (fs, (ee, ec, ei, eu, er))))))))))),
        ),
      ) =
    record {
      format = f;
      id = i;
      version = v;
      abi = a;
      loadable = l;
      entrypoint = (pe, ee);
      config_schema = (pc, ec);
      apart = ne;
      assets = (
        (IsAsset-iff m m.icon).0 (oi, ei),
        (IsAsset-iff m m.ui).0 (ou, eu),
        (IsAsset-iff m m.readme).0 (ord, er),
      );
      behavior = b;
      some_ports = sp;
      implemented = im;
      distributed = di;
      ports = ps;
      capabilities = cs;
      limits = li;
      some_files = (n2, n32);
      files = fs;
    }

scatter : (m : Manifest) → IsManifest m → Parts m
scatter m v =
    let (oi, ei) = (IsAsset-iff m m.icon).1 v.assets.0 in
    let (ou, eu) = (IsAsset-iff m m.ui).1 v.assets.1 in
    let (ord, er) = (IsAsset-iff m m.readme).1 v.assets.2 in
    (
      (v.format, v.id, v.version, v.abi, v.loadable),
      (
        (v.entrypoint.0, (v.config_schema.0, (v.apart, (oi, (ou, ord))))),
        (
          v.behavior,
          (
            v.some_ports,
            (
              v.implemented,
              (
                v.distributed,
                (
                  v.ports,
                  (
                    v.capabilities,
                    (
                      v.limits,
                      (
                        v.some_files.0,
                        (
                          v.some_files.1,
                          (v.files, (v.entrypoint.1, v.config_schema.1, ei, eu, er)),
                        ),
                      ),
                    ),
                  ),
                ),
              ),
            ),
          ),
        ),
      ),
    )

-- A manifest is accepted exactly when it is of this format and ABI, with a package ID and a semantic
-- version in their patterns, an implementation that can be loaded and a known behavior; its
-- entrypoint and its config schema are different paths, and they, and the icon, the UI metadata and
-- the README when they are named, have checksums; it has 2 to 32 files, each at a path of the
-- package, not the manifest's, with a digest; it has ports, with distinct IDs in their pattern and
-- known directions; a JavaScript package streams, uses no capability, is at most a singleton and has
-- one required input and one required output; a distribution is a singleton or batch-parallel, and
-- then the package streams, uses no capability and has one input, a required one; its capabilities
-- are known and distinct, and its limits are positive, with whole pages of memory. The orders of the
-- loops over the two labels of a literal map do not matter.
pub validate_manifest_iff :
    (assets required optional : Bool) (m : Manifest)
    → (validate_manifest assets required optional m ≡ ok tt) ↔ IsManifest m
unfolding validate_manifest
validate_manifest_iff assets required optional m =
    let all = chain_iff (check_identity_iff m) (
      chain_iff (check_paths_iff assets m) (
        chain_iff (check_behavior_iff m.behavior) (
          chain_iff (some_ports_iff m.ports) (
            chain_iff
              (check_javascript_iff m.implementation m.behavior m.capabilities m.distribution
                m.ports)
              (chain_iff (check_distribution_iff m.behavior m.capabilities m.ports m.distribution) (
                chain_iff (check_ports_iff m.ports) (
                  chain_iff (validate_manifest_capabilities_iff m.capabilities) (
                    chain_iff (wrap_iff _ _ (validate_package_limits_iff m.limits))
                      (check_checksums_iff required optional m))))))))) in
    (λ h. gather m (all.0 h), λ v. all.1 (scatter m v))
