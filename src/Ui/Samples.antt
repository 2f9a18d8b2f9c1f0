-- ===== src/Ui/Samples.antt =====
-- Small presentation metadata for the tests.
use nodima_sdk.Base.{
  [], ◌∷◌, ◌≡◌, refl, ok, some, none, false, all_spaces, codes, is_space, contains,
}
use nodima_sdk.Regex.{match_string, nullable, after}
use nodima_sdk.Base.Int.{pos}
use nodima_sdk.Ui.{
  UiManifest, UiConfigField, ui_format_version, ui_field_key_pattern, validate_ui, check_fields,
  check_field, check_help, check_options, check_editor, check_types, check_visibility, check_rules,
  check_values,
}

abbrev pub mode : UiConfigField
mode = record {
  key = "mode";
  label = "Mode";
  kind = "select";
  placeholder = "";
  help = "Which rows" ∷ [];
  options = record { value = "a"; label = "A" } ∷ (record { value = "b"; label = "B" } ∷ []);
  visible_when = [];
  editor = none;
}

abbrev pub names : UiConfigField
names = record {
  key = "names";
  label = "Names";
  kind = "text";
  placeholder = "x";
  help = [];
  options = [];
  visible_when = record { key = "mode"; values = "b" ∷ [] } ∷ [];
  editor = some (record {
    kind = "column-schema";
    types = "int" ∷ ("text" ∷ []);
    default_type = "text";
    allow_bare_name = false;
  });
}

abbrev pub form : UiManifest
form = record {
  format_version = ui_format_version;
  name = "Filter";
  group = "Rows";
  order = pos 3;
  glyph = "F";
  fields = names ∷ (mode ∷ []);
}

pub form-accepted : validate_ui form ≡ ok tt
unfolding validate_ui all_spaces codes is_space check_fields match_string nullable after
    ui_field_key_pattern contains check_field check_help check_options check_editor check_types
    check_visibility check_rules check_values
form-accepted = refl
