-- ===== src/PackagePath/Tests.antt =====
-- runner/v1/manifest.go: `ValidatePackagePath`, run on small paths.
use nodima_sdk.Base.{[], ◌∷◌, ◌≡◌, ◌↔◌, refl, ok, err, errorf}
use nodima_sdk.PackagePath
use nodima_sdk.PackagePath.Valid.{IsPackagePath, validate_package_path_iff}

-- `a/../b` is not normalized.
inner_up_refused :
    PackagePath.validate_package_path (97 ∷ (47 ∷ (46 ∷ (46 ∷ (47 ∷ (98 ∷ []))))))
    ≡ err (errorf "path must be normalized and remain inside the package" [])
unfolding PackagePath.validate_package_path PackagePath.has_byte PackagePath.is_abs
    PackagePath.clean PackagePath.keep_all PackagePath.keep PackagePath.climb PackagePath.turn
    PackagePath.split PackagePath.join PackagePath.equal PackagePath.has_prefix
inner_up_refused = refl

-- `..` is accepted.
up_accepted : PackagePath.validate_package_path (46 ∷ (46 ∷ [])) ≡ ok tt
unfolding PackagePath.validate_package_path PackagePath.has_byte PackagePath.is_abs
    PackagePath.clean PackagePath.keep_all PackagePath.keep PackagePath.climb PackagePath.turn
    PackagePath.split PackagePath.join PackagePath.equal PackagePath.has_prefix
up_accepted = refl

validate_package_path_iff_example :
    (PackagePath.validate_package_path (46 ∷ (46 ∷ [])) ≡ ok tt) ↔ IsPackagePath (46 ∷ (46 ∷ []))
validate_package_path_iff_example = validate_package_path_iff (46 ∷ (46 ∷ []))
