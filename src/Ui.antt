-- ===== src/Ui.antt =====
-- runner/v1/ui.go: the presentation metadata of a package, and `UIManifest.Validate`.
pub mod Valid
pub mod Samples
mod Tests
use nodima_sdk.Base.{
  ℕ, String, Bool, true, false, not, ◌&&◌, ◌||◌, ltb, eqb, Option, some, none, List, [], ◌∷◌, map,
  Check, ok, err, errorf, str, reject, ◌>>=◌, ◌>>◌, ◌==◌, length, len, is_empty, contains, codes,
  all_spaces,
}
use nodima_sdk.Base.Int.{ℤ, below, above}
use nodima_sdk.Regex.{Regex, class, seq, up_to, is_lower, is_upper, is_digit, match_string}

abbrev pub ui_format_version : String
ui_format_version = "dbminer.runner.ui.v1alpha1"

pub record UiConfigEditor : Type 0 where
  pub kind : String
  pub types : List String
  pub default_type : String
  pub allow_bare_name : Bool

pub record UiConfigOption : Type 0 where
  pub value : String
  pub label : String

pub record UiVisibleWhenRule : Type 0 where
  pub key : String
  pub values : List String

pub record UiConfigField : Type 0 where
  pub key : String
  pub label : String
  pub kind : String
  pub placeholder : String
  pub help : List String
  pub options : List UiConfigOption
  pub visible_when : List UiVisibleWhenRule
  pub editor : Option UiConfigEditor

pub record UiManifest : Type 0 where
  pub format_version : String
  pub name : String
  pub group : String
  pub order : ℤ
  pub glyph : String
  pub fields : List UiConfigField

abbrev is_key_start : ℕ → Bool
is_key_start c = is_upper c || is_lower c || eqb c 95

abbrev is_key_part : ℕ → Bool
is_key_part c = is_upper c || is_lower c || is_digit c || eqb c 95 || eqb c 45

-- `uiFieldKeyPattern`
unfoldable pub ui_field_key_pattern : Regex
ui_field_key_pattern = seq (class is_key_start) (up_to 127 (class is_key_part))

-- `strings.TrimSpace(s) == "" || len(s) > limit`
abbrev pub is_unfit : ℕ → String → Bool
is_unfit limit s = all_spaces (codes s) || ltb limit (len s)

module _ (key : String) where
  unfoldable pub check_help : List String → Check
  check_help [] = ok tt
  check_help (help ∷ rest) = do
    reject (is_unfit 2000 help) (errorf "runner UI field %q has invalid help text" (str key ∷ []))
    check_help rest

  -- The loop over the options; `options` is the map of the values seen.
  unfoldable pub check_options : List String → List UiConfigOption → Check
  check_options options [] = ok tt
  check_options options (o ∷ rest) = do
    reject (o.value == "" || ltb 1000 (len o.value) || is_unfit 200 o.label)
        (errorf "runner UI field %q has an invalid option" (str key ∷ []))
    reject (contains options o.value)
        (errorf "runner UI field %q repeats option %q" (str key ∷ (str o.value ∷ [])))
    check_options (o.value ∷ options) rest

  -- The loop over the types of an editor; `types` is the map of those seen.
  unfoldable pub check_types : List String → List String → Check
  check_types types [] = ok tt
  check_types types (name ∷ rest) = do
    reject (is_unfit 100 name)
        (errorf "runner UI field %q has an invalid editor type" (str key ∷ []))
    reject (contains types name)
        (errorf "runner UI field %q repeats editor type %q" (str key ∷ (str name ∷ [])))
    check_types (name ∷ types) rest

  -- `if field.Editor != nil`
  unfoldable pub check_editor : String → Option UiConfigEditor → Check
  check_editor kind none = ok tt
  check_editor kind (some e) = do
    reject (not (kind == "text"))
        (errorf "runner UI field %q structured editor requires text kind" (str key ∷ []))
    reject (not (e.kind == "column-schema"))
        (errorf "runner UI field %q has invalid editor kind %q" (str key ∷ (str e.kind ∷ [])))
    reject (is_empty e.types || ltb 100 (length e.types))
        (errorf "runner UI field %q column-schema editor requires 1 to 100 types" (str key ∷ []))
    check_types [] e.types
    reject (not (contains e.types e.default_type)) (
        errorf "runner UI field %q editor default type %q is not listed"
          (str key ∷ (str e.default_type ∷ [])))

  -- The loop over the values of a rule; `values` is the map of those seen.
  unfoldable pub check_values : List String → List String → Check
  check_values values [] = ok tt
  check_values values (value ∷ rest) = do
    reject (value == "" || ltb 1000 (len value))
        (errorf "runner UI field %q has an invalid visibility value" (str key ∷ []))
    reject (contains values value)
        (errorf "runner UI field %q repeats visibility value %q" (str key ∷ (str value ∷ [])))
    check_values (value ∷ values) rest

  -- The loop over the rules; `seen` holds the keys of the fields, `controllers` those of the rules
  -- before.
  unfoldable pub check_rules : List String → List String → List UiVisibleWhenRule → Check
  check_rules seen controllers [] = ok tt
  check_rules seen controllers (r ∷ rest) = do
    reject (not (contains seen r.key) || is_empty r.values || ltb 1000 (length r.values)) (
        errorf "runner UI field %q has invalid visibility controller %q"
          (str key ∷ (str r.key ∷ [])))
    reject (contains controllers r.key)
        (errorf "runner UI field %q repeats visibility controller %q" (str key ∷ (str r.key ∷ [])))
    check_values [] r.values
    check_rules seen (r.key ∷ controllers) rest

abbrev pub is_kind : String → Bool
is_kind k = k == "text" || k == "url" || k == "select" || k == "textarea"

-- The body of the loop over the fields, below the test for a repeated key.
unfoldable pub check_field : UiConfigField → Check
check_field f = do
  reject (is_unfit 200 f.label) (errorf "runner UI field %q has an invalid label" (str f.key ∷ []))
  reject
      (ltb 1000 (len f.placeholder)
        || ltb 16 (length f.help)
        || ltb 1000 (length f.options)
        || ltb 32 (length f.visible_when))
      (errorf "runner UI field %q exceeds presentation metadata limits" (str f.key ∷ []))
  check_help f.key f.help
  reject (not (is_kind f.kind))
      (errorf "runner UI field %q has invalid kind %q" (str f.key ∷ (str f.kind ∷ [])))
  check_options f.key [] f.options
  reject (f.kind == "select" && is_empty f.options)
      (errorf "runner UI select field %q requires options" (str f.key ∷ []))
  check_editor f.key f.kind f.editor

-- The loop over the fields; `seen` is the map of the keys seen.
unfoldable pub check_fields : List String → List UiConfigField → Check
check_fields seen [] = ok tt
check_fields seen (f ∷ rest) = do
  reject (not (match_string ui_field_key_pattern (codes f.key)))
      (errorf "runner UI has invalid field key %q" (str f.key ∷ []))
  reject (contains seen f.key) (errorf "runner UI repeats field %q" (str f.key ∷ []))
  check_field f
  check_fields (f.key ∷ seen) rest

-- The second loop over the fields.
unfoldable pub check_visibility : List String → List UiConfigField → Check
check_visibility seen [] = ok tt
check_visibility seen (f ∷ rest) = do
  check_rules f.key seen [] f.visible_when
  check_visibility seen rest

abbrev pub keys_of : List UiConfigField → List String
keys_of = map (λ f. f.key)

-- `UIManifest.Validate`; after the first loop the map `seen` holds the keys of all fields.
unfoldable pub validate_ui : UiManifest → Check
validate_ui m = do
  reject (not (m.format_version == ui_format_version))
      (errorf "unsupported runner UI format %q" (str m.format_version ∷ []))
  reject (is_unfit 200 m.name) (errorf "runner UI name must contain 1 to 200 characters" [])
  reject (is_unfit 100 m.group) (errorf "runner UI group must contain 1 to 100 characters" [])
  reject (all_spaces (codes m.glyph) || ltb 4 (length (codes m.glyph)))
      (errorf "runner UI glyph must contain 1 to 4 characters" [])
  reject (below m.order 0 || above m.order 1000000)
      (errorf "runner UI order must be between 0 and 1000000" [])
  reject (ltb 1000 (length m.fields)) (errorf "runner UI has more than 1000 fields" [])
  check_fields [] m.fields
  check_visibility (keys_of m.fields) m.fields
