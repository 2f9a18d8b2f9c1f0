-- ===== src/Ui/Tests.antt =====
-- runner/v1/ui.go: the validation, run on small metadata.
use nodima_sdk.Base.{◌≡◌, ◌↔◌, ok}
use nodima_sdk.Ui.{validate_ui}
use nodima_sdk.Ui.Valid.{IsUi, validate_ui_iff}
use nodima_sdk.Ui.Samples.{form}

validate_ui_iff_example : (validate_ui form ≡ ok tt) ↔ IsUi form
validate_ui_iff_example = validate_ui_iff form
