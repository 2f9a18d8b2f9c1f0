-- ===== src/PackageKit/Documents.antt =====
-- packagekit/loader.go: `decodeManifest`, `validateConfigSchema` and `decodeUIManifest`.
pub mod Covered
use nodima_sdk.Base.{
  ℕ, String, Bool, true, false, not, ◌&&◌, ◌||◌, eqb, Option, some, none, List, [], ◌∷◌, length,
  Check, Result, ok, err, Error, eof, errorf, wrapf, str, reject, wrap, ◌>>=◌, ◌>>◌, ◌==◌,
  if◌then◌else◌, is_empty, contains,
}
use nodima_sdk.Manifest.Types.{Manifest}
use nodima_sdk.Ui.{UiManifest, UiConfigField, UiConfigOption, UiVisibleWhenRule, validate_ui}
use nodima_sdk.PackageKit.{Json, Property}

-- `errors.Is(err, io.EOF)`
unfoldable pub is_eof : Error → Bool
is_eof eof = true
is_eof (wrapf format args e) = is_eof e
is_eof _ = false

-- What a decoder finds behind the first value, which must be the end.
unfoldable pub check_trailer : String → String → Result (Bool × List ℕ) → Check
check_trailer multiple trailer (ok value) = err (errorf multiple [])
check_trailer multiple trailer (err e) = if is_eof e then ok tt else err (wrapf trailer [] e)

-- A map's entry.
unfoldable pub lookup {ℓ} : {A : Type ℓ} → String → List (String × A) → Option A
lookup key [] = none
lookup key ((k, a) ∷ rest) = let later = lookup key rest in if k == key then some a else later

module _ (json : Json) where
  -- `decodeManifest`
  unfoldable pub decode_manifest : List ℕ → Result Manifest
  decode_manifest bytes = do
    (manifest, rest) ← wrap "decode runner package manifest: %w" [] (json.decode_manifest bytes)
    check_trailer "runner package manifest contains multiple JSON values"
        "decode runner package manifest trailer: %w" (json.decode_any rest)
    ok manifest

  -- `validateConfigSchema`
  unfoldable pub validate_config_schema : List ℕ → Check
  validate_config_schema bytes = do
    (is_object, rest) ← wrap "decode runner config schema: %w" [] (json.decode_any bytes)
    reject (not is_object) (errorf "runner config schema must be a JSON object" [])
    check_trailer "runner config schema contains multiple JSON values"
        "decode runner config schema trailer: %w" (json.decode_any rest)

-- The loop over a field's options; `enum` holds the keys of the map of allowed values.
unfoldable pub check_allowed : String → List String → List UiConfigOption → Check
check_allowed key enum [] = ok tt
check_allowed key enum (o ∷ rest) = do
  reject (is_empty enum || not (contains enum o.value)) (
      errorf "runner UI field %q option %q is not allowed by the configuration schema"
        (str key ∷ (str o.value ∷ [])))
  check_allowed key enum rest

unfoldable pub check_allowed_values : String → List String → List String → Check
check_allowed_values controller enum [] = ok tt
check_allowed_values controller enum (value ∷ rest) = do
  reject (not (contains enum value)) (
      errorf "runner UI visibility value %q is not allowed by controller %q"
        (str value ∷ (str controller ∷ [])))
  check_allowed_values controller enum rest

-- The body of the loop over a field's rules, with the controller that was looked up.
unfoldable pub check_controller : UiVisibleWhenRule → Option Property → Check
check_controller r none = err (
    errorf "runner UI visibility controller %q is not present in the configuration schema"
      (str r.key ∷ []))
check_controller r (some controller) = check_allowed_values r.key controller.enum r.values

unfoldable pub check_controllers : List (String × Property) → List UiVisibleWhenRule → Check
check_controllers schema [] = ok tt
check_controllers schema (r ∷ rest) = do
  check_controller r (lookup r.key schema)
  check_controllers schema rest

-- The body of the loop over the fields, with the property that was looked up.
unfoldable pub check_property : List (String × Property) → UiConfigField → Option Property → Check
check_property schema f none =
    err (errorf "runner UI field %q is not present in the configuration schema" (str f.key ∷ []))
check_property schema f (some p) = do
  reject (not (p.type == "string"))
      (errorf "runner UI field %q does not reference a string schema field" (str f.key ∷ []))
  check_allowed f.key p.enum f.options
  reject (f.kind == "select" && not (eqb (length f.options) (length p.enum)))
      (errorf "runner UI select field %q must present every schema enum value" (str f.key ∷ []))
  check_controllers schema f.visible_when

unfoldable pub check_properties : List (String × Property) → List UiConfigField → Check
check_properties schema [] = ok tt
check_properties schema (f ∷ rest) = do
  check_property schema f (lookup f.key schema)
  check_properties schema rest

module _ (json : Json) where
  -- `decodeUIManifest`
  unfoldable pub decode_ui_manifest : List ℕ → List ℕ → Result UiManifest
  decode_ui_manifest bytes schema_bytes = do
    (ui, rest) ← wrap "decode runner UI metadata: %w" [] (json.decode_ui bytes)
    check_trailer "runner UI metadata contains multiple JSON values"
        "decode runner UI metadata trailer: %w" (json.decode_any rest)
    wrap "validate runner UI metadata: %w" [] (validate_ui ui)
    schema ← wrap "decode runner UI schema fields: %w" [] (json.unmarshal_schema schema_bytes)
    check_properties schema ui.fields
    reject (not (eqb (length ui.fields) (length schema)))
        (errorf "runner UI metadata must present every configuration schema field" [])
    ok ui
